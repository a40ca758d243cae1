-- ===== src/World/Told/Phones.antt =====
-- internal/relay/handler.go: the notices of a phone that comes or goes, among all connections.
use sesori_relay_server.Prelude.{
  ℕ, ◌≡◌, ◌≢◌, ◌∙◌, refl, sym, ap, subst, inl, inr, arith, Bool, true, Option, none, some, Text,
  ℕ_discrete,
}
use sesori_relay_server.Prelude.Dict.{lookup, lookup-insert, lookup-delete_self, lookup-delete_ne}
use sesori_relay_server.AccountGroup.{
  Connection, AccountGroup, Registered, same, target, default_bridge, add_phone, remove_phone,
}
use sesori_relay_server.AccountGroup.Invariant.{add_phone_total, with_phone}
use sesori_relay_server.AccountGroup.Routing.{target-lookup}
use sesori_relay_server.Announce.{write_control}
use sesori_relay_server.Announce.Views.{phone_view, bridge_view, name}
use sesori_relay_server.GroupManager.{group_at}
use sesori_relay_server.Handler.Lifecycle.{sent}
use sesori_relay_server.Handler.Lifecycle.Phones.{
  phone_joined-phone_view, phone_joined-phone_view_ne, phone_joined-bridge_view, target-with_phone,
  phone_closed-view,
}
use sesori_relay_server.Handler.Phone.{phone_joined, phone_opened, phone_closed}
use sesori_relay_server.World.{World, joining, phone_serving}
use sesori_relay_server.World.Groups.{Consistent}
use sesori_relay_server.World.Shared.{stages}
use sesori_relay_server.World.Told.{Beliefs}
use sesori_relay_server.World.Told.Knows.{Knows, Informs, talks_to, talking, member}

-- A joining phone's notices are about its own connection id, and to its target and itself.
joined_other :
    (phone : Connection) (t : Option Connection) (ref id : ℕ) (v : Bool)
    → phone.conn_id ≢ id
    → bridge_view ref id v (sent (phone_joined phone t)) ≡ v
unfolding phone_joined sent bridge_view write_control
joined_other phone none ref id v ne = ground arith
joined_other phone (some a) ref id v ne = ground arith

joined_elsewhere :
    (phone : Connection) (t : Option Connection) (ref id : ℕ) (v : Bool)
    → ((a : Connection) → t ≡ some a → a.ref ≢ ref)
    → bridge_view ref id v (sent (phone_joined phone t)) ≡ v
unfolding phone_joined sent bridge_view write_control
joined_elsewhere phone none ref id v h = ground arith
joined_elsewhere phone (some a) ref id v h = ground (arith, h a refl)

-- A leaving phone's notice is about its connection id, and to its target.
closed_other :
    (phone : Connection) (t : Option Connection) (ref id : ℕ) (v : Bool)
    → phone.conn_id ≢ id
    → bridge_view ref id v (sent (phone_closed phone t)) ≡ v
unfolding phone_closed sent bridge_view write_control
closed_other phone none ref id v ne = ground arith
closed_other phone (some a) ref id v ne = ground arith

closed_elsewhere :
    (phone : Connection) (t : Option Connection) (ref id : ℕ) (v : Bool)
    → ((a : Connection) → t ≡ some a → a.ref ≢ ref)
    → bridge_view ref id v (sent (phone_closed phone t)) ≡ v
unfolding phone_closed sent bridge_view write_control
closed_elsewhere phone none ref id v h = ground arith
closed_elsewhere phone (some a) ref id v h = ground (arith, h a refl)

closed_phones :
    (phone : Connection) (t : Option Connection) (ref : ℕ) (v : Option Text)
    → phone_view ref v (sent (phone_closed phone t)) ≡ v
unfolding phone_closed sent phone_view write_control
closed_phones phone none ref v = ground arith
closed_phones phone (some a) ref v = ground arith

talks_to-with_phone :
    (g : AccountGroup) (phone a : Connection) (id : ℕ) (o : Option Connection)
    → talks_to (with_phone g phone id) o a ≡ talks_to g o a
talks_to-with_phone g phone a id none = refl
talks_to-with_phone g phone a id (some p) =
    ap (λ t. same t (some a)) (target-with_phone g phone p id)

target-remove_phone :
    (g : AccountGroup) (phone q : Connection) → target (remove_phone g phone).0 q ≡ target g q
unfolding remove_phone target default_bridge
target-remove_phone g phone q = refl

talks_to-remove_phone :
    (g : AccountGroup) (phone a : Connection) (o : Option Connection)
    → talks_to (remove_phone g phone).0 o a ≡ talks_to g o a
talks_to-remove_phone g phone a none = refl
talks_to-remove_phone g phone a (some p) = ap (λ t. same t (some a)) (target-remove_phone g phone p)

module _ (w : World) (b : Beliefs) (r : ℕ) (g : AccountGroup) (c : Consistent w)
    (k : Knows w.manager (stages w.handlers) b) (found : group_at w.manager r ≡ some g) where
  -- The target of a phone is served in the group.
  target-member :
      (q a : Connection) → target g q ≡ some a → member (stages w.handlers a.ref) ≡ some r
  target-member q a e =
      ap member
        (c.bridges r g a.bridge_id a found (target-lookup g q a (c.well_formed.valid r g found) e))

  -- A connection that is not served in the group is not its target.
  target_elsewhere :
      (q : Connection) (j : ℕ)
      → member (stages w.handlers j) ≢ some r
      → (a : Connection) → target g q ≡ some a
      → a.ref ≢ j
  target_elsewhere q j out a e at =
      out (sym (ap (λ x. member (stages w.handlers x)) at) ∙ target-member q a e)

  with_phone-Informs :
      (phone : Connection) (u : Text) (id : ℕ)
      → stages w.handlers phone.ref ≡ some (joining u r)
      → lookup ℕ_discrete id g.phones ≡ none
      → let g' = with_phone g phone id in
        let phone' : Connection = record phone { conn_id = id } in
        Informs (stages w.handlers) b phone.ref r g' (sent (phone_joined phone' (target g' phone')))
  with_phone-Informs phone u id stage free =
      let g' = with_phone g phone id in
      let phone' : Connection = record phone { conn_id = id } in
      let t = target g' phone' in
      let out : member (stages w.handlers phone.ref) ≢ some r =
        λ e. ground (arith, ap member stage) in
      let not_self = λ (a : Connection) (e : t ≡ some a).
        target_elsewhere phone' phone.ref out a (sym (target-with_phone g phone phone' id) ∙ e) in
      record {
        phones = λ j p e. elim (ℕ_discrete j id) [
          | yes own ↦
              let is : phone' ≡ p = ground (arith, lookup-insert ℕ_discrete id j phone' g.phones) in
              subst
                (λ x.
                  phone_view x.ref (b.target_of x.ref) (sent (phone_joined phone' t))
                  ≡ name (target g' x))
                is (phone_joined-phone_view phone' t (b.target_of phone.ref) not_self)
          | no other ↦
              let old : lookup ℕ_discrete j g.phones ≡ some p =
                ground (arith, lookup-insert ℕ_discrete id j phone' g.phones) in
              let served = c.phones r g j p found old in
              phone_joined-phone_view_ne phone' p t (b.target_of p.ref)
                (λ x. ground (arith, ap (stages w.handlers) x))
              ∙ k.phones r g j p found old
              ∙ sym (ap name (target-with_phone g phone p id))
        ];
        bridges = λ key a j e. elim (ℕ_discrete j id) [
          | yes own ↦
              let served = c.bridges r g key a found e in
              let here : lookup ℕ_discrete id g'.phones ≡ some phone' =
                ground (arith, lookup-insert ℕ_discrete id id phone' g.phones) in
              subst
                (λ x.
                  bridge_view a.ref x (b.talks a.ref x) (sent (phone_joined phone' t))
                  ≡ talking g' x a)
                (sym own)
                (ap (λ v. bridge_view a.ref id v (sent (phone_joined phone' t)))
                    (k.bridges r g key a id found e ∙ ap (λ o. talks_to g o a) free)
                  ∙ phone_joined-bridge_view phone' a t
                      (λ x. ground (arith, ap (stages w.handlers) x))
                  ∙ sym (ap (λ o. talks_to g' o a) here))
          | no other ↦
              let kept : lookup ℕ_discrete j g'.phones ≡ lookup ℕ_discrete j g.phones =
                ground (arith, lookup-insert ℕ_discrete id j phone' g.phones) in
              joined_other phone' t a.ref j (b.talks a.ref j) (λ x. other (sym x))
              ∙ k.bridges r g key a j found e
              ∙ sym (talks_to-with_phone g phone a id (lookup ℕ_discrete j g.phones))
              ∙ sym (ap (λ o. talks_to g' o a) kept)
        ];
        not_phones =
            λ j v ne _. phone_joined-phone_view_ne phone' (record phone { ref = j }) t v ne;
        not_bridges = λ j x v ne away. joined_elsewhere phone' t j x v (λ a e.
            target_elsewhere phone' j away a (sym (target-with_phone g phone phone' id) ∙ e));
      }

  pub add_phone-Informs :
      (phone : Connection) (u : Text) (g' : AccountGroup) (added : Registered)
      → stages w.handlers phone.ref ≡ some (joining u r)
      → add_phone g phone ≡ some (g', added)
      → added.is_ok ≡ true
      → Informs (stages w.handlers) b phone.ref r g' (sent (phone_opened added))
  unfolding phone_opened
  add_phone-Informs phone u g' added stage result ok =
      elim (add_phone_total g phone (c.well_formed.valid r g found)) [
        | inl (_, refused) ↦ absurd (ground arith)
        | inr (id, _, _, free, found_id) ↦
            let made : AccountGroup × Registered = (
              with_phone g phone id,
              record {
                phone = record phone { conn_id = id };
                bridge = target (with_phone g phone id) (record phone { conn_id = id });
                is_ok = true;
              },
            ) in
            let is : made ≡ (g', added) = ground arith in
            subst (λ x. Informs (stages w.handlers) b phone.ref r x.0 (sent (phone_opened x.1))) is
              (with_phone-Informs phone u id stage free)
      ]

  pub remove_phone-Informs :
      (i : ℕ) (phone : Connection) (u : Text)
      → stages w.handlers i ≡ some (phone_serving u r phone)
      → Informs
          (stages w.handlers)
          b
          i
          r
          (remove_phone g phone).0
          (sent (phone_closed phone (remove_phone g phone).1))
  unfolding remove_phone target default_bridge
  remove_phone-Informs i phone u stage =
      let id = phone.conn_id in
      let g' = (remove_phone g phone).0 in
      let ns = sent (phone_closed phone (target g phone)) in
      let known : lookup ℕ_discrete id g.phones ≡ some phone =
        ground (arith, c.registered i u r phone stage) in
      let gone =
        lookup-delete_self ℕ_discrete id g.phones (c.well_formed.valid r g found).distinct_phones in
      record {
        phones = λ j q e. elim (ℕ_discrete j id) [
          | yes own ↦ absurd (ground (arith, ap (λ x. lookup ℕ_discrete x g'.phones) own))
          | no other ↦
              closed_phones phone (target g phone) q.ref (b.target_of q.ref)
              ∙ k.phones r g j q found (sym (lookup-delete_ne ℕ_discrete id j g.phones other) ∙ e)
        ];
        bridges = λ key a j e. elim (ℕ_discrete j id) [
          | yes own ↦
              subst (λ x. bridge_view a.ref x (b.talks a.ref x) ns ≡ talking g' x a) (sym own)
                (ap (λ v. bridge_view a.ref id v ns)
                    (k.bridges r g key a id found e ∙ ap (λ o. talks_to g o a) known)
                  ∙ phone_closed-view phone a (target g phone)
                  ∙ sym (ap (λ o. talks_to g' o a) gone))
          | no other ↦
              closed_other phone (target g phone) a.ref j (b.talks a.ref j) (λ x. other (sym x))
              ∙ k.bridges r g key a j found e
              ∙ sym (talks_to-remove_phone g phone a (lookup ℕ_discrete j g.phones))
              ∙ sym (ap (λ o. talks_to g' o a) (lookup-delete_ne ℕ_discrete id j g.phones other))
        ];
        not_phones = λ j v _ _. closed_phones phone (target g phone) j v;
        not_bridges = λ j x v _ out.
            closed_elsewhere phone (target g phone) j x v (target_elsewhere phone j out);
      }

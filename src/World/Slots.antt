-- ===== src/World/Slots.antt =====
-- internal/relay/handler.go and ratelimit.go: the slots of the handlers under every interleaving.
use sesori_relay_server.Prelude.{
  ℕ, ◌≡◌, ◌∙◌, refl, sym, subst, inl, inr, arith, List, [], ◌∷◌, none, some, Text, ℕ_discrete,
  Bool-cases, ltb, true, false,
}
use sesori_relay_server.Prelude.Dict.{
  Dict, Distinct, lookup, insert, delete, insert-Distinct, delete-Distinct,
}
use sesori_relay_server.GroupManager.{GroupManager}
use sesori_relay_server.RateLimiter.{
  RateLimiter, new_rate_limiter, allow_connection, release_connection,
}
use sesori_relay_server.RateLimiter.Slots.{
  Represents, held, give_back, held-give_back, new-Represents, allow_connection-max,
  release_connection-max, allow_connection-grant, release_connection-give_back,
}
use sesori_relay_server.World.Branches.{check_groups_cases, join_bridge_cases, join_phone_cases}
use sesori_relay_server.World.{
  Stage, Handler, World, Step, Reach, arrives, checks, gets_group, adds_bridge, adds_phone,
  removes_bridge, removes_phone, collects, ends, here, next, new_world, arrive, get_group,
  withdraw_bridge, withdraw_phone, collect, finish, At, enter, at_stage, admitted,
}

-- The address of each handler.
abbrev pub slots : Dict ℕ Handler → List Text
slots [] = []
slots ((_, h) ∷ hs) = h.ip ∷ slots hs

pub held-insert_new :
    (ip : Text) (i : ℕ) (h : Handler) (hs : Dict ℕ Handler)
    → lookup ℕ_discrete i hs ≡ none
    → held ip (slots (insert ℕ_discrete i h hs)) ≡ held ip (h.ip ∷ slots hs)
unfolding held insert lookup
held-insert_new ip i h [] e = refl
held-insert_new ip i h ((j, k) ∷ hs) e = ground (arith, held-insert_new ip i h hs)

pub held-insert_old :
    (ip : Text) (i : ℕ) (h k : Handler) (hs : Dict ℕ Handler)
    → lookup ℕ_discrete i hs ≡ some k
    → k.ip ≡ h.ip
    → held ip (slots (insert ℕ_discrete i h hs)) ≡ held ip (slots hs)
unfolding held insert lookup
held-insert_old ip i h k [] e same = cc
held-insert_old ip i h k ((j, l) ∷ hs) e same = ground (arith, held-insert_old ip i h k hs)

held-delete :
    (ip : Text) (i : ℕ) (h : Handler) (hs : Dict ℕ Handler)
    → lookup ℕ_discrete i hs ≡ some h
    → held ip (h.ip ∷ slots (delete ℕ_discrete i hs)) ≡ held ip (slots hs)
unfolding held delete lookup
held-delete ip i h [] e = cc
held-delete ip i h ((j, k) ∷ hs) e = ground (arith, held-delete ip i h hs)

given_back :
    (ip : Text) (i : ℕ) (h : Handler) (hs : Dict ℕ Handler)
    → lookup ℕ_discrete i hs ≡ some h
    → held ip (give_back h.ip (slots hs)) ≡ held ip (slots (delete ℕ_discrete i hs))
unfolding held
given_back ip i h hs e =
    ground
      (arith, held-give_back h.ip ip (slots hs), held-delete ip i h hs e, held-delete h.ip i h hs e)

-- The table depends only on how many slots are held from each address.
Represents-held :
    (rl : RateLimiter) (xs ys : List Text)
    → Represents rl xs
    → ((ip : Text) → held ip xs ≡ held ip ys)
    → Represents rl ys
Represents-held rl xs ys r e = record {
  distinct = r.distinct;
  in_range = r.in_range;
  counts = λ ip. r.counts ip ∙ e ip;
}

-- One entry for a handler, and the limiter's table counts the handlers of each address.
pub record Accounted (limit : ℕ) (w : World) : Type 0 where
  pub distinct : Distinct ℕ_discrete w.handlers
  pub counted : Represents w.limiter (slots w.handlers)
  pub limit_kept : w.limiter.max_per_ip ≡ limit

module _ (limit : ℕ) (w : World) (v : Accounted limit w) where
  -- A handler goes on to another stage, and the limiter is not touched.
  moves-Accounted :
      (i : ℕ) (h : Handler) (stage : Stage) (manager : GroupManager)
      → At w i h
      → Accounted limit (enter (record w { manager = manager }) i (at_stage h stage))
  moves-Accounted i h stage manager e = record {
    distinct = insert-Distinct ℕ_discrete i (at_stage h stage) w.handlers v.distinct;
    counted =
        Represents-held w.limiter (slots w.handlers) _ v.counted
          (λ ip. sym (held-insert_old ip i (at_stage h stage) h w.handlers e refl));
    limit_kept = v.limit_kept;
  }

  arrive-Accounted :
      (i : ℕ) (ip : Text) → lookup ℕ_discrete i w.handlers ≡ none → Accounted limit (arrive w i ip)
  unfolding arrive
  arrive-Accounted i ip new =
      let h : Handler = record { ip = ip; stage = admitted } in
      let (decides, stays) = allow_connection-grant w.limiter ip (slots w.handlers) v.counted in
      let kept : (allow_connection w.limiter ip).0.max_per_ip ≡ limit =
        allow_connection-max w.limiter ip ∙ v.limit_kept in
      elim (Bool-cases (ltb (held ip (slots w.handlers)) w.limiter.max_per_ip)) [
        | inl room ↦
            let allowed : (allow_connection w.limiter ip).1 ≡ true = ground arith in
            let taken : Represents (allow_connection w.limiter ip).0 (ip ∷ slots w.handlers) =
              rw room at stays in
            rw allowed (record {
              distinct = insert-Distinct ℕ_discrete i h w.handlers v.distinct;
              counted =
                  Represents-held _ (ip ∷ slots w.handlers) _ taken
                    (λ jp. sym (held-insert_new jp i h w.handlers new));
              limit_kept = kept;
            })
        | inr full ↦
            let refused : (allow_connection w.limiter ip).1 ≡ false = ground arith in
            let same : Represents (allow_connection w.limiter ip).0 (slots w.handlers) =
              rw full at stays in
            rw refused (record { distinct = v.distinct; counted = same; limit_kept = kept })
      ]

  finish-Accounted : (i : ℕ) (h : Handler) → At w i h → Accounted limit (finish w i h)
  unfolding finish
  finish-Accounted i h e =
      let rest = delete ℕ_discrete i w.handlers in
      let given : Represents (release_connection w.limiter h.ip)
          (give_back h.ip (slots w.handlers)) =
        release_connection-give_back w.limiter h.ip (slots w.handlers) v.counted in
      record {
        distinct = delete-Distinct ℕ_discrete i w.handlers v.distinct;
        counted =
            Represents-held _ (give_back h.ip (slots w.handlers)) (slots rest) given
              (λ ip. given_back ip i h w.handlers e);
        limit_kept = release_connection-max w.limiter h.ip ∙ v.limit_kept;
      }

Step-Accounted : (limit : ℕ) (w t : World) → Step w t → Accounted limit w → Accounted limit t
unfolding get_group withdraw_bridge withdraw_phone collect
Step-Accounted limit w t (arrives i ip new e) v =
    subst (Accounted limit) (sym e) (arrive-Accounted limit w v i ip new)
Step-Accounted limit w t (checks i h at _ e) v = elim (check_groups_cases w i h) [
  | inl few ↦ subst (Accounted limit) (sym (e ∙ few)) (moves-Accounted limit w v i h _ w.manager at)
  | inr many ↦
      subst (Accounted limit) (sym (e ∙ many)) (moves-Accounted limit w v i h _ w.manager at)
]
Step-Accounted limit w t (gets_group i h user_id at _ e) v =
    subst (Accounted limit) (sym e) (moves-Accounted limit w v i h _ _ at)
Step-Accounted limit w t (adds_bridge i h user_id ref g bridge at _ _ _ e) v =
    elim (join_bridge_cases w i h user_id ref g bridge) [
      | inl (_, added) ↦
          subst (Accounted limit) (sym (e ∙ added)) (moves-Accounted limit w v i h _ _ at)
      | inr (_, refused) ↦
          subst (Accounted limit) (sym (e ∙ refused)) (moves-Accounted limit w v i h _ w.manager at)
    ]
Step-Accounted limit w t (adds_phone i h user_id ref g phone r at _ _ _ _ e) v =
    elim (join_phone_cases w i h user_id ref r) [
      | inl (_, added) ↦
          subst (Accounted limit) (sym (e ∙ added)) (moves-Accounted limit w v i h _ _ at)
      | inr (_, refused) ↦
          subst (Accounted limit) (sym (e ∙ refused)) (moves-Accounted limit w v i h _ w.manager at)
    ]
Step-Accounted limit w t (removes_bridge i h user_id ref g bridge at _ _ e) v =
    subst (Accounted limit) (sym e) (moves-Accounted limit w v i h _ _ at)
Step-Accounted limit w t (removes_phone i h user_id ref g phone at _ _ e) v =
    subst (Accounted limit) (sym e) (moves-Accounted limit w v i h _ _ at)
Step-Accounted limit w t (collects i h user_id ref at _ e) v =
    subst (Accounted limit) (sym e) (moves-Accounted limit w v i h _ _ at)
Step-Accounted limit w t (ends i h at _ e) v =
    subst (Accounted limit) (sym e) (finish-Accounted limit w v i h at)

pub Reach-Accounted : (limit rooms : ℕ) {w : World} → Reach limit rooms w → Accounted limit w
unfolding new_world new_rate_limiter
Reach-Accounted limit rooms here = record {
  distinct = tt;
  counted = new-Represents limit rooms;
  limit_kept = refl;
}
Reach-Accounted limit rooms (next {w} {t} r st) =
    Step-Accounted limit w t st (Reach-Accounted limit rooms r)

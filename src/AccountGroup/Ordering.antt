-- ===== src/AccountGroup/Ordering.antt =====
-- internal/relay/account_group.go: the order of bridges by connect time and then by bridge id.
use sesori_relay_server.Prelude.{
  ◌≡◌, true, false, arith, text_ltb_irrefl, text_ltb_trans, text_ltb_total,
}
use sesori_relay_server.AccountGroup.{Connection, is_later}

pub is_later_trans :
    (a b c : Connection) → is_later a b ≡ true → is_later b c ≡ true → is_later a c ≡ true
unfolding is_later
is_later_trans a b c h k = ground (arith, text_ltb_trans c.bridge_id b.bridge_id a.bridge_id)

pub is_later_irrefl : (a : Connection) → is_later a a ≡ false
unfolding is_later
is_later_irrefl a = ground (arith, text_ltb_irrefl a.bridge_id)

pub is_later_asym : (a b : Connection) → is_later a b ≡ true → is_later b a ≡ false
is_later_asym a b h = ground (arith, is_later_trans a b a h, is_later_irrefl a)

pub is_later_total :
    (a b : Connection) → is_later a b ≡ false → is_later b a ≡ false → a.bridge_id ≡ b.bridge_id
unfolding is_later
is_later_total a b h k = ground (arith, text_ltb_total a.bridge_id b.bridge_id)

-- ===== src/Web/Overview/Keys.antt =====
-- src/web.rs: the order of stacks and names is a strict total order.
use dockdoe.Prelude.{
  ◌≡◌, refl, ap, arith, true, false, ◌==◌, text_ltb, text_eq, StrictOrder, text_order, pair_order,
  pair_ltb,
}
use dockdoe.Web.Overview.{StackKey, named, standalone, key_eq, key_beq_iff, key_ltb}

pub key_ltb_trans :
    (i j k : StackKey) → key_ltb i j ≡ true → key_ltb j k ≡ true → key_ltb i k ≡ true
key_ltb_trans (named s) (named t) (named u) h l = text_order.trans s t u h l
key_ltb_trans (named s) (named t) standalone h l = refl
key_ltb_trans (named s) standalone k h l = cc
key_ltb_trans standalone j k h l = cc

key_ltb_connex : (i j : StackKey) → key_ltb i j ≡ false → key_ltb j i ≡ false → i ≡ j
key_ltb_connex (named s) (named t) h l = ap named (text_order.connex s t h l)
key_ltb_connex (named s) standalone h l = cc
key_ltb_connex standalone (named t) h l = cc
key_ltb_connex standalone standalone h l = refl

pub key_ltb_irrefl : (k : StackKey) → key_ltb k k ≡ false
key_ltb_irrefl (named s) = text_order.irrefl s
key_ltb_irrefl standalone = refl

pub key_order : StrictOrder key_ltb
key_order = record { irrefl = key_ltb_irrefl; trans = key_ltb_trans; connex = key_ltb_connex }

pub key_lt : (j k : StackKey) → (j == k) ≡ false → key_ltb k j ≡ false → key_ltb j k ≡ true
key_lt j k e f = ground (arith, key_beq_iff j k, key_ltb_connex j k)

pub row_order : StrictOrder (pair_ltb key_ltb text_ltb)
row_order = pair_order key_ltb text_ltb key_order text_order

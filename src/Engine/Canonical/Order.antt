-- ===== src/Engine/Canonical/Order.antt =====
-- engine/canonical.ts: the order in which an object holds its members.
use edgeproc_browser.Base.{
  ◌≡◌, ◌≢◌, refl, ap, ◌∙◌, List, [], ◌∷◌, arith, Text, text_leb_total, text_leb_antisymm,
  text_leb_trans, Bool-cases, inl, inr,
}
use edgeproc_browser.Base.Table.{contains}
use edgeproc_browser.Engine.Json.{Json, Members, member}
use edgeproc_browser.Engine.Canonical.{
  Rendered, insert_member, sort_members, serialize, serialize_members, braced, without_keys,
  canonical_bytes, proto_key,
}

-- Two members with different keys go in in either order.
insert_member_comm :
    (m n : Rendered) (l : List Rendered)
    → m.0 ≢ n.0
    → insert_member m (insert_member n l) ≡ insert_member n (insert_member m l)
unfolding insert_member
insert_member_comm m n [] h = ground (arith, text_leb_total m.0 n.0, text_leb_antisymm m.0 n.0)
insert_member_comm m n (x ∷ l) h = ground (
  arith,
  text_leb_total m.0 n.0,
  text_leb_total n.0 m.0,
  text_leb_antisymm m.0 n.0,
  text_leb_trans m.0 n.0 x.0,
  text_leb_trans n.0 m.0 x.0,
  text_leb_total m.0 x.0,
  text_leb_total n.0 x.0,
  text_leb_trans m.0 x.0 n.0,
  text_leb_trans n.0 x.0 m.0,
  insert_member_comm m n l h,
)

-- The same members in another order: neighbours with different keys change places.
pub data Reordered : Members → Members → Type 0 where
  same : (ms : Members) → Reordered ms ms
  swap :
      (j k : Text) (v w : Json) (ms : Members)
      → j ≢ k
      → Reordered (member j v (member k w ms)) (member k w (member j v ms))
  under :
      {ms ns : Members} (k : Text) (v : Json)
      → Reordered ms ns
      → Reordered (member k v ms) (member k v ns)
  trans : {ms ns os : Members} → Reordered ms ns → Reordered ns os → Reordered ms os

sort_members-Reordered :
    {ms ns : Members}
    → Reordered ms ns
    → sort_members (serialize_members ms) ≡ sort_members (serialize_members ns)
unfolding sort_members serialize_members
sort_members-Reordered (same ms) = refl
sort_members-Reordered (swap j k v w ms h) = insert_member_comm _ _ _ h
sort_members-Reordered (under k v r) = ap (insert_member _) (sort_members-Reordered r)
sort_members-Reordered (trans r s) = sort_members-Reordered r ∙ sort_members-Reordered s

without_keys-Reordered :
    (exclude : List Text) {ms ns : Members}
    → Reordered ms ns
    → Reordered (without_keys exclude ms) (without_keys exclude ns)
unfolding without_keys
without_keys-Reordered exclude (same ms) = same _
without_keys-Reordered exclude (swap j k v w ms h) = elim (Bool-cases (contains exclude j)) [
  | inl out ↦ rw out (same _)
  | inr kept ↦ elim (Bool-cases (contains exclude k)) [
    | inl gone ↦ rw (kept, gone) (same _)
    | inr stays ↦ rw (kept, stays) (swap j k v w _ h)
  ]
]
without_keys-Reordered exclude (under k v r) = elim (Bool-cases (contains exclude k)) [
  | inl out ↦ rw out (without_keys-Reordered exclude r)
  | inr kept ↦ rw kept (under k v (without_keys-Reordered exclude r))
]
without_keys-Reordered exclude (trans r s) =
    trans (without_keys-Reordered exclude r) (without_keys-Reordered exclude s)

-- An object gives the same canonical bytes in whatever order it holds its members.
pub canonical_bytes-Reordered :
    (exclude : List Text) {ms ns : Members}
    → Reordered ms ns
    → canonical_bytes ms exclude ≡ canonical_bytes ns exclude
unfolding canonical_bytes serialize braced
canonical_bytes-Reordered exclude r =
    rw (sort_members-Reordered (without_keys-Reordered (proto_key ∷ exclude) r))

-- ===== src/Hash/Canonical.antt =====
-- The canonical text of src/lib/hash.ts does not depend on the order of an object's keys.
use capybara_ai.Prelude.{◌≡◌, refl, ap, ◌∙◌, ◌≢◌, Bool, String, arith}
use capybara_ai.Hash.{
  Json, Items, Fields, arr, obj, nil, item, end, field, IsOrder, Platform, insert_field, sort_deep,
  sort_items, sort_fields, canonical_json,
}

-- The same value, up to the order of the keys of the objects in it.
mutual
  pub data SameJson : Json → Json → Type 0 where
    same : {v : Json} → SameJson v v
    chain : {u v w : Json} → SameJson u v → SameJson v w → SameJson u w
    in_arr : {xs ys : Items} → SameItems xs ys → SameJson (arr xs) (arr ys)
    in_obj : {fs gs : Fields} → SameFields fs gs → SameJson (obj fs) (obj gs)

  pub data SameItems : Items → Items → Type 0 where
    none_left : SameItems nil nil
    both :
        {v w : Json} {xs ys : Items}
        → SameJson v w
        → SameItems xs ys
        → SameItems (item v xs) (item w ys)

  pub data SameFields : Fields → Fields → Type 0 where
    no_field : SameFields end end
    entry :
        {k : String} {v w : Json} {fs gs : Fields}
        → SameJson v w
        → SameFields fs gs
        → SameFields (field k v fs) (field k w gs)
    swap :
        {j k : String} {v w : Json} {fs gs : Fields}
        → j ≢ k
        → SameFields fs gs
        → SameFields (field j v (field k w fs)) (field k w (field j v gs))
    link : {fs gs hs : Fields} → SameFields fs gs → SameFields gs hs → SameFields fs hs

module _ (le : String → String → Bool) (order : IsOrder le) where
  insert_field_comm :
      (j k : String) (v w : Json) (fs : Fields)
      → j ≢ k
      → insert_field le j v (insert_field le k w fs) ≡ insert_field le k w (insert_field le j v fs)
  unfolding insert_field
  insert_field_comm j k v w end ne = ground (arith, order.total j k, order.antisym j k)
  insert_field_comm j k v w (field i x fs) ne = ground (
    arith,
    order.total j k,
    order.antisym j k,
    order.total j i,
    order.total k i,
    order.trans j k i,
    order.trans k j i,
    order.trans j i k,
    order.trans k i j,
    insert_field_comm j k v w fs ne,
  )

  mutual
    unfolding sort_deep

    sort_deep_same : {u v : Json} → SameJson u v → sort_deep le u ≡ sort_deep le v
    sort_deep_same same = refl
    sort_deep_same (chain a b) = sort_deep_same a ∙ sort_deep_same b
    sort_deep_same (in_arr s) = ap arr (sort_items_same s)
    sort_deep_same (in_obj s) = ap obj (sort_fields_same s)

    sort_items_same : {xs ys : Items} → SameItems xs ys → sort_items le xs ≡ sort_items le ys
    sort_items_same none_left = refl
    sort_items_same (both a s) = cc (sort_deep_same a, sort_items_same s)

    sort_fields_same : {fs gs : Fields} → SameFields fs gs → sort_fields le fs ≡ sort_fields le gs
    sort_fields_same no_field = refl
    sort_fields_same (entry {k} a s) = rw (sort_deep_same a, sort_fields_same s)
    sort_fields_same (swap {j} {k} {v} {w} {gs} ne s) =
        rw (sort_fields_same s)
          (insert_field_comm j k (sort_deep le v) (sort_deep le w) (sort_fields le gs) ne)
    sort_fields_same (link a b) = sort_fields_same a ∙ sort_fields_same b

-- Two values that differ only in the order of the keys of objects, at any depth, have the same
-- canonical text, if the platform sorts keys by a total order.
pub canonical_json_same :
    (p : Platform) (u v : Json)
    → IsOrder p.key_le
    → SameJson u v
    → canonical_json p u ≡ canonical_json p v
unfolding canonical_json
canonical_json_same p u v order s = ap p.stringify (sort_deep_same p.key_le order s)

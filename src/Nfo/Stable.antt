-- ===== src/Nfo/Stable.antt =====
-- "Keys are written in sorted order so the output is stable": the document does not depend on the order
-- in which a map gives its keys.
use docker_smartclips.Prelude.{
  ℕ, suc, ◌≡◌, ◌≢◌, refl, ap, ap₂, ◌∙◌, inl, inr, arith, true, false, Bool-cases,
}
use docker_smartclips.Prelude.{List, [], ◌∷◌, ◌++◌, if◌then◌else◌}
use docker_smartclips.Config.Names.{Text, valid_key}
use docker_smartclips.Config.Metadata.{
  Value, array, object, Items, no_items, item, Fields, no_fields, field,
}
use docker_smartclips.Nfo.Write.{
  Entry, text_leb, insert_entry, sort_entries, all_written, pad, open_tag, close_tag, newline,
  write_value, write_items, map_entries, write_map, generate,
}

pub text_leb_total : (s t : Text) → text_leb s t ≡ false → text_leb t s ≡ true
text_leb_total [] t h = ground arith
text_leb_total (a ∷ s) [] h = refl
text_leb_total (a ∷ s) (b ∷ t) h = ground (arith, text_leb_total s t)

text_leb_antisym : (s t : Text) → text_leb s t ≡ true → text_leb t s ≡ true → s ≡ t
text_leb_antisym [] [] h k = refl
text_leb_antisym [] (b ∷ t) h k = absurd (ground arith)
text_leb_antisym (a ∷ s) [] h k = absurd (ground arith)
text_leb_antisym (a ∷ s) (b ∷ t) h k =
    ap₂ (λ (x : ℕ) y. x ∷ y) (ground arith) (text_leb_antisym s t (ground arith) (ground arith))

pub text_leb_trans :
    (s t u : Text) → text_leb s t ≡ true → text_leb t u ≡ true → text_leb s u ≡ true
text_leb_trans [] t u h k = refl
text_leb_trans (a ∷ s) [] u h k = absurd (ground arith)
text_leb_trans (a ∷ s) (b ∷ t) [] h k = absurd (ground arith)
text_leb_trans (a ∷ s) (b ∷ t) (c ∷ u) h k = ground (arith, text_leb_trans s t u)

text_leb_strict : (s t : Text) → s ≢ t → text_leb s t ≡ true → text_leb t s ≡ false
text_leb_strict s t n h = elim (Bool-cases (text_leb t s)) [
  | inl k ↦ absurd (n (text_leb_antisym s t h k))
  | inr k ↦ k
]

module _ (a b : Entry) (differ : a.key ≢ b.key) where
  insert_both :
      (xs : List Entry)
      → (if text_leb a.key b.key then a ∷ b ∷ xs else b ∷ a ∷ xs)
        ≡ (if text_leb b.key a.key then b ∷ a ∷ xs else a ∷ b ∷ xs)
  insert_both xs = elim (Bool-cases (text_leb a.key b.key)) [
    | inl h ↦ let k = text_leb_strict a.key b.key differ h in rw (h, k) refl
    | inr h ↦ let k = text_leb_total a.key b.key h in rw (h, k) refl
  ]

  not_between :
      (c : Text) (d : Text) (e : Text)
      → text_leb d e ≡ true
      → text_leb c e ≡ false
      → text_leb c d ≡ false
  not_between c d e h k = elim (Bool-cases (text_leb c d)) [
    | inl t ↦ absurd (let l = text_leb_trans c d e t h in cc)
    | inr f ↦ f
  ]

  -- Entries of different keys can be inserted in either order.
  insert_entry_comm :
      (xs : List Entry) → insert_entry a (insert_entry b xs) ≡ insert_entry b (insert_entry a xs)
  unfolding insert_entry
  insert_entry_comm [] = insert_both []
  insert_entry_comm (x ∷ xs) = elim (Bool-cases (text_leb b.key x.key)) [
    | inl p ↦ elim (Bool-cases (text_leb a.key x.key)) [
      | inl q ↦ rw (p, q, p) (insert_both (x ∷ xs))
      | inr q ↦ let n = not_between a.key b.key x.key p q in rw (p, q, n, p) refl
    ]
    | inr p ↦ elim (Bool-cases (text_leb a.key x.key)) [
      | inl q ↦ let n = not_between b.key a.key x.key q p in rw (p, q, n, p) refl
      | inr q ↦ rw (p, q, p) (ap (λ t. x ∷ t) (insert_entry_comm xs))
    ]
  ]

-- Values that differ in the order of the keys of their maps only.
mutual
  pub data SameValue : Value → Value → Type 0 where
    same : (v : Value) → SameValue v v
    arrays : {is js : Items} → SameItems is js → SameValue (array is) (array js)
    objects : {fs gs : Fields} → SameFields fs gs → SameValue (object fs) (object gs)

  pub data SameItems : Items → Items → Type 0 where
    no_more : SameItems no_items no_items
    one_more :
        {v w : Value} {is js : Items}
        → SameValue v w
        → SameItems is js
        → SameItems (item v is) (item w js)

  pub data SameFields : Fields → Fields → Type 0 where
    no_keys : SameFields no_fields no_fields
    keep :
        (k : Text) {v w : Value} {fs gs : Fields}
        → SameValue v w
        → SameFields fs gs
        → SameFields (field k v fs) (field k w gs)
    swap :
        (k l : Text) (v w : Value) (fs : Fields)
        → k ≢ l
        → SameFields (field k v (field l w fs)) (field l w (field k v fs))
    trans : {fs gs hs : Fields} → SameFields fs gs → SameFields gs hs → SameFields fs hs

module _ (format : ℕ → Text) where
  sorted_swap :
      (k l : Text) (v w : Value) (fs : Fields) (indent : ℕ)
      → k ≢ l
      → sort_entries (map_entries format (field k v (field l w fs)) indent)
        ≡ sort_entries (map_entries format (field l w (field k v fs)) indent)
  unfolding write_value sort_entries
  sorted_swap k l v w fs indent n = elim (Bool-cases (valid_key k)) [
    | inl p ↦ elim (Bool-cases (valid_key l)) [
      | inl q ↦
          rw (p, q)
            (insert_entry_comm (record { key = k; written = write_value format k v indent })
              (record { key = l; written = write_value format l w indent }) n
              (sort_entries (map_entries format fs indent)))
      | inr q ↦ rw (p, q) refl
    ]
    | inr p ↦ rw p refl
  ]

  mutual
    unfolding write_value sort_entries

    write_value-SameValue :
        {v w : Value} (key : Text) (indent : ℕ)
        → SameValue v w
        → write_value format key v indent ≡ write_value format key w indent
    write_value-SameValue key indent (same v) = refl
    write_value-SameValue key indent (arrays s) = write_items-SameItems key indent s
    write_value-SameValue key indent (objects s) =
        ap
          (λ t.
            pad indent
            ++ (open_tag key
                ++ (newline ++ (all_written t ++ (pad indent ++ (close_tag key ++ newline))))))
          (sort_entries-SameFields (suc indent) s)

    write_items-SameItems :
        {is js : Items} (key : Text) (indent : ℕ)
        → SameItems is js
        → write_items format key is indent ≡ write_items format key js indent
    write_items-SameItems key indent no_more = refl
    write_items-SameItems key indent (one_more s t) =
        ap₂ (λ x y. x ++ y) (write_value-SameValue key indent s)
          (write_items-SameItems key indent t)

    sort_entries-SameFields :
        {fs gs : Fields} (indent : ℕ)
        → SameFields fs gs
        → sort_entries (map_entries format fs indent) ≡ sort_entries (map_entries format gs indent)
    sort_entries-SameFields indent no_keys = refl
    sort_entries-SameFields indent (keep k s t) = elim (Bool-cases (valid_key k)) [
      | inl p ↦ rw p (
          ap₂ (λ x y. insert_entry (record { key = k; written = x }) y)
            (write_value-SameValue k indent s) (sort_entries-SameFields indent t))
      | inr p ↦ rw p (sort_entries-SameFields indent t)
    ]
    sort_entries-SameFields indent (swap k l v w fs n) = sorted_swap k l v w fs indent n
    sort_entries-SameFields indent (trans s t) =
        sort_entries-SameFields indent s ∙ sort_entries-SameFields indent t

  write_map-SameFields :
      {fs gs : Fields} (indent : ℕ)
      → SameFields fs gs
      → write_map format fs indent ≡ write_map format gs indent
  unfolding write_map
  write_map-SameFields indent s = ap all_written (sort_entries-SameFields indent s)

  -- The document is the same for metadata whose maps, at every level, list their keys in another order.
  pub generate-SameFields :
      {fs gs : Fields} (nfo_type : Text)
      → SameFields fs gs
      → generate format nfo_type fs ≡ generate format nfo_type gs
  unfolding generate
  generate-SameFields nfo_type s = rw (write_map-SameFields 1 s) refl

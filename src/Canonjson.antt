-- ===== src/Canonjson.antt =====
-- internal/canonjson: the canonical text of a JSON value. The decoder of encoding/json and the digest of
-- crypto/sha256 are parameters.
use mathlib.Core.List.{Permᴰ, Pairwise}
use copyfail_validation.Base.{
  List, [], ◌∷◌, ◌++◌, Bool, true, false, ◌||◌, if◌then◌else◌, ◌≡◌, ◌≢◌, refl, sym, ap, ap₂,
}
use copyfail_validation.Base.Sort.{sort_by, sort_by_unique}
use copyfail_validation.Text.{Text, codes}
use copyfail_validation.Text.Order.{encode, less, less_asymm, less_trans, less_total}
use copyfail_validation.Errors.{Try, ok, err, wrap, lit}
use copyfail_validation.Json.{
  Json, Items, Fields, null, bool, number, string, array, object, nil, item, end, field, truth,
  marshal_string,
}

-- A key, and the text of its value.
abbrev pub Entry : Type 0
Entry = Text × Text

abbrev pub by_key : Entry → Entry → Bool
by_key a b = less a.0 b.0

-- Entries behind the first, if the flag says so.
unfoldable pub write_entries : Bool → List Entry → Text
unfolding marshal_string
write_entries first [] = []
write_entries first ((k, v) ∷ es) =
    (if first then [] else codes ",")
    ++ (marshal_string k ++ (codes ":" ++ (v ++ write_entries false es)))

unfoldable pub sort_entries : List Entry → List Entry
unfolding sort_by less
sort_entries = sort_by by_key

-- write. The entries of an object are sorted once their values are written.
unfoldable mutual
  unfolding write_entries sort_entries marshal_string

  pub write : Json → Text
  write null = codes "null"
  write (bool b) = truth b
  write (number n) = n
  write (string s) = marshal_string s
  write (array vs) = b'[' ∷ (write_items true vs ++ codes "]")
  write (object fs) = b'{' ∷ (write_entries true (sort_entries (entries fs)) ++ codes "}")

  pub write_items : Bool → Items → Text
  write_items first nil = []
  write_items first (item v vs) =
      (if first then [] else codes ",") ++ (write v ++ write_items false vs)

  pub entries : Fields → List Entry
  entries end = []
  entries (field k v fs) = (k, write v) ∷ entries fs

-- Canonicalize, for what Decode makes of the input.
unfoldable pub canonicalize : (Text → Try Json) → Text → Try Text
unfolding write
canonicalize decode input = elim (decode input) [
  | err e ↦ err (wrap (lit "canonjson: decode: ") e)
  | ok v ↦ ok (write v)
]

-- SHA256, for the hexadecimal digest of a text.
unfoldable pub sha256 : (Text → Text) → (Text → Try Json) → Text → Try Text
sha256 digest decode input = elim (canonicalize decode input) [
  | err e ↦ err e
  | ok c ↦ ok (digest c)
]

-- The keys of an object, as bytes, differ.
abbrev pub KeysDiffer : Fields → Type 0
KeysDiffer fs = Pairwise (λ a b. encode a.0 ≢ encode b.0) (entries fs)

-- Values that are the same but for the order of the fields of their objects, whose keys differ.
mutual
  pub data Same : Json → Json → Type 0 where
    same_null : Same null null
    same_bool : (b : Bool) → Same (bool b) (bool b)
    same_number : (n : Text) → Same (number n) (number n)
    same_string : (s : Text) → Same (string s) (string s)
    same_array : {vs ws : Items} → SameItems vs ws → Same (array vs) (array ws)
    same_object : {fs gs : Fields} → KeysDiffer fs → SameFields fs gs → Same (object fs) (object gs)

  pub data SameItems : Items → Items → Type 0 where
    same_nil : SameItems nil nil
    same_item :
        {v w : Json} {vs ws : Items}
        → Same v w
        → SameItems vs ws
        → SameItems (item v vs) (item w ws)

  pub data SameFields : Fields → Fields → Type 0 where
    same_end : SameFields end end
    same_field :
        {k : Text} {v w : Json} {fs gs : Fields}
        → Same v w
        → SameFields fs gs
        → SameFields (field k v fs) (field k w gs)
    swapped :
        {k l : Text} {v w : Json} {fs : Fields}
        → SameFields (field k v (field l w fs)) (field l w (field k v fs))
    followed : {fs gs hs : Fields} → SameFields fs gs → SameFields gs hs → SameFields fs hs

told_apart :
    {es : List Entry}
    → Pairwise (λ a b. encode a.0 ≢ encode b.0) es
    → Pairwise (λ a b. (by_key a b || by_key b a) ≡ true) es
told_apart Pairwise.nil = Pairwise.nil
told_apart (Pairwise.cons {a = a} h d) =
    Pairwise.cons (λ b m. less_total a.0 b.0 (h b m)) (told_apart d)

sort_entries_unique :
    {xs ys : List Entry}
    → Permᴰ xs ys
    → Pairwise (λ a b. encode a.0 ≢ encode b.0) xs
    → sort_entries xs ≡ sort_entries ys
unfolding sort_entries
sort_entries_unique p d =
    sort_by_unique by_key (λ a b. less_asymm a.0 b.0) (λ a b c. less_trans a.0 b.0 c.0) p
      (told_apart d)

mutual
  unfolding write

  write-Same : {v w : Json} → Same v w → write v ≡ write w
  write-Same same_null = refl
  write-Same (same_bool b) = refl
  write-Same (same_number n) = refl
  write-Same (same_string s) = refl
  write-Same (same_array h) = ap (λ t. b'[' ∷ (t ++ codes "]")) (write_items-Same true h)
  write-Same (same_object d h) =
      ap (λ es. b'{' ∷ (write_entries true es ++ codes "}"))
        (sort_entries_unique (entries-Same h) d)

  write_items-Same :
      (first : Bool) {vs ws : Items} → SameItems vs ws → write_items first vs ≡ write_items first ws
  write_items-Same first same_nil = refl
  write_items-Same first (same_item h hs) =
      ap₂ (λ s t. (if first then [] else codes ",") ++ (s ++ t)) (write-Same h)
        (write_items-Same false hs)

  entries-Same : {fs gs : Fields} → SameFields fs gs → Permᴰ (entries fs) (entries gs)
  entries-Same same_end = Permᴰ.nil
  entries-Same (same_field {k = k} h hs) =
      Permᴰ.cons (ap (λ t. (k, t)) (write-Same h)) (entries-Same hs)
  entries-Same swapped = Permᴰ.swap refl refl
  entries-Same (followed h k) = Permᴰ.trans (entries-Same h) (entries-Same k)

-- Inputs that decode to the same value, but for the order of the fields of objects at any depth, have
-- one canonical text, that of either value, and so one digest.
pub canonicalize-Same :
    (digest : Text → Text) (decode : Text → Try Json) (a b : Text) (v w : Json)
    → decode a ≡ ok v
    → decode b ≡ ok w
    → Same v w
    → (canonicalize decode a ≡ ok (write v))
      × (canonicalize decode b ≡ ok (write v))
      × (sha256 digest decode b ≡ sha256 digest decode a)
unfolding canonicalize sha256
canonicalize-Same digest decode a b v w ha hb s =
    let left : canonicalize decode a ≡ ok (write v) = rw (ha, canonicalize) refl in
    let right : canonicalize decode b ≡ ok (write v) =
      rw (hb, canonicalize) (ap ok (sym (write-Same s))) in
    (left, right, rw (left, sha256) (rw (right, sha256) refl))

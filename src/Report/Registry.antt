-- ===== src/Report/Registry.antt =====
-- report/writeto.go: the registry of renderers, and WriteTo. A renderer takes the writer and the
-- report, and returns the count of bytes and the error, with the writer as it leaves it. The lock
-- makes each operation one step.
use copyfail_validation.Base.{
  ℕ, List, [], ◌∷◌, ◌++◌, true, false, Option, none, some, ◌≡◌, ◌≢◌, refl, sym, ◌∙◌, arith,
  if◌then◌else◌, Bool-cases, inl, inr,
}
use copyfail_validation.Text.{Text, equal}
use copyfail_validation.Text.Laws.{equal_iff, equal_refl}
use copyfail_validation.Errors.{Error, Outcome, renderer_not_registered, sentinel, quoted, lit}
use copyfail_validation.Report.{Report}
use copyfail_validation.Report.Format.{Format, format_text, is_known, unknown}

module _ (W : Type 0) where
  abbrev pub Renderer : Type 0
  Renderer = W → Report → Outcome ℕ × W

  -- The map; the key of an entry is the string of its format.
  abbrev pub Registry : Type 0
  Registry = List (Text × Renderer)

unfoldable pub renderer_for : {W : Type 0} → Text → Registry W → Option (Renderer W)
renderer_for k [] = none
renderer_for k ((j, r) ∷ m) = if equal j k then some r else renderer_for k m

unfoldable pub put : {W : Type 0} → Text → Renderer W → Registry W → Registry W
put k r [] = (k, r) ∷ []
put k r ((j, q) ∷ m) = if equal j k then (k, r) ∷ m else (j, q) ∷ put k r m

-- Register
unfoldable pub register : {W : Type 0} → Format → Renderer W → Registry W → Registry W
unfolding put
register f r m = put (format_text f) r m

-- The copy of a map entry by entry, into an empty one.
unfoldable pub copy_onto : {W : Type 0} → Registry W → Registry W → Registry W
unfolding put
copy_onto out [] = out
copy_onto out ((k, r) ∷ m) = copy_onto (put k r out) m

-- SnapshotRenderers
unfoldable pub snapshot_renderers : {W : Type 0} → Registry W → Registry W
unfolding copy_onto
snapshot_renderers m = copy_onto [] m

-- RestoreRenderers: the registry that it leaves, whatever was there.
unfoldable pub restore_renderers : {W : Type 0} → Registry W → Registry W → Registry W
unfolding copy_onto
restore_renderers snapshot old = copy_onto [] snapshot

abbrev not_registered : Text → Error
not_registered k = sentinel renderer_not_registered (
    lit "no renderer registered for format: "
    ++ quoted k ∷ lit " (did you forget to import internal/render?)")

abbrev pub refuse : {W : Type 0} → W → Error → Outcome ℕ × W
refuse w e = (record { value = 0; err = some e }, w)

-- WriteTo
unfoldable pub write_to : {W : Type 0} → Registry W → Report → W → Format → Outcome ℕ × W
unfolding renderer_for
write_to m rep w f =
    if is_known f
    then elim (renderer_for (format_text f) m) [
      | some r ↦ r w rep
      | none ↦ refuse w (not_registered (format_text f))
    ]
    else refuse w (unknown (format_text f))

pub renderer_for-put :
    {W : Type 0} (k j : Text) (r : Renderer W) (m : Registry W)
    → renderer_for j (put k r m) ≡ (if equal k j then some r else renderer_for j m)
unfolding renderer_for put
renderer_for-put k j r [] = refl
renderer_for-put k j r ((i, q) ∷ m) =
    ground (arith, equal_iff k j, equal_iff i k, equal_iff i j, renderer_for-put k j r m)

renderer_for-put_ne :
    {W : Type 0} (k j : Text) (r : Renderer W) (m : Registry W)
    → k ≢ j
    → renderer_for j (put k r m) ≡ renderer_for j m
renderer_for-put_ne k j r m ne = ground (arith, renderer_for-put k j r m, equal_iff k j)

-- WriteTo after Register: the registered renderer runs for its own format, every other format is
-- written as before, and a value that is no format is refused with the writer untouched.
pub write_to-register :
    {W : Type 0} (m : Registry W) (r : Renderer W) (rep : Report) (w : W) (f g : Format)
    → is_known f ≡ true
    → (write_to (register f r m) rep w f ≡ r w rep)
      × (format_text g ≢ format_text f → write_to (register f r m) rep w g ≡ write_to m rep w g)
      × (is_known g ≡ false
          → write_to (register f r m) rep w g ≡ refuse w (unknown (format_text g)))
unfolding write_to register
write_to-register m r rep w f g k = (
  rw (k, renderer_for-put (format_text f) (format_text f) r m) (rw (equal_refl (format_text f))),
  λ ne. rw (renderer_for-put_ne (format_text f) (format_text g) r m (λ e. ne (sym e))),
  λ u. rw u,
)

-- A Go map has one entry for a key.
abbrev pub IsMap : {W : Type 0} → Registry W → Type 0
IsMap [] = Unit
IsMap ((k, r) ∷ m) = (renderer_for k m ≡ none) × IsMap m

pub put-IsMap :
    {W : Type 0} (k : Text) (r : Renderer W) (m : Registry W) → IsMap m → IsMap (put k r m)
unfolding put renderer_for
put-IsMap k r [] h = (refl, tt)
put-IsMap k r ((j, q) ∷ m) h = elim (Bool-cases (equal j k)) [
  | inl e ↦ rw e (rw ((equal_iff j k).0 e) at h.0, h.1)
  | inr e ↦ rw e (
    renderer_for-put_ne k j r m (λ q. cc (e, (equal_iff j k).1 (sym q))) ∙ h.0,
    put-IsMap k r m h.1,
  )
]

abbrev or_else : {A : Type 0} → Option A → Option A → Option A
or_else (some a) b = some a
or_else none b = b

renderer_for-copy_onto :
    {W : Type 0} (k : Text) (out m : Registry W)
    → IsMap m
    → renderer_for k (copy_onto out m) ≡ or_else (renderer_for k m) (renderer_for k out)
unfolding copy_onto renderer_for
renderer_for-copy_onto k out [] h = refl
renderer_for-copy_onto k out ((j, r) ∷ m) h = ground (
  arith,
  renderer_for-copy_onto k (put j r out) m h.1,
  renderer_for-put j k r out,
  equal_iff j k,
  h.0,
)

or_else-none : {A : Type 0} (o : Option A) → or_else o none ≡ o
or_else-none none = refl
or_else-none (some a) = refl

renderer_for-copy :
    {W : Type 0} (k : Text) (m : Registry W)
    → IsMap m
    → renderer_for k (copy_onto [] m) ≡ renderer_for k m
unfolding renderer_for
renderer_for-copy k m h = renderer_for-copy_onto k [] m h ∙ or_else-none (renderer_for k m)

copy_onto-IsMap : {W : Type 0} (out m : Registry W) → IsMap out → IsMap (copy_onto out m)
unfolding copy_onto
copy_onto-IsMap out [] h = h
copy_onto-IsMap out ((k, r) ∷ m) h = copy_onto-IsMap (put k r out) m (put-IsMap k r out h)

-- For a registry with one entry for a key, as a Go map has, a snapshot that is restored brings WriteTo
-- back to what it did when the snapshot was taken, for every report, writer and format, whatever the
-- registry had become in between.
pub write_to-restore_renderers :
    {W : Type 0} (m changed : Registry W) (rep : Report) (w : W) (f : Format)
    → IsMap m
    → write_to (restore_renderers (snapshot_renderers m) changed) rep w f ≡ write_to m rep w f
unfolding write_to restore_renderers snapshot_renderers
write_to-restore_renderers m changed rep w f h = rw (
    renderer_for-copy (format_text f) (copy_onto [] m) (copy_onto-IsMap [] m tt)
    ∙ renderer_for-copy (format_text f) m h)

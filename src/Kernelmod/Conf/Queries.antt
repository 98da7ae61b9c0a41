-- ===== src/Kernelmod/Conf/Queries.antt =====
-- InstallTarget and IsBlacklisted of internal/kernelmod/conf.go against what they promise.
use copyfail_validation.Base.{
  String, List, [], ◌∷◌, ◌++◌, Bool, true, false, ◌&&◌, ◌||◌, not, Option, none, some, ◌≡◌, ◌↔◌,
  refl, ap, arith, All, Bool-cases, inl, inr,
}
use copyfail_validation.Text.{Text, codes, equal, join}
use copyfail_validation.Text.Laws.{equal_iff}
use copyfail_validation.Kernelmod.Conf.{ConfDirective, install_loop, install_target, is_blacklisted}

-- The directive is `kind m …`.
abbrev pub Is : String → Text → ConfDirective → Type 0
Is kind m d = (d.kind ≡ codes kind) × (d.module_name ≡ m)

-- A place in the list, with what stands before and behind it.
pub record Place (ds : List ConfDirective) : Type 0 where
  pub front : List ConfDirective
  pub here : ConfDirective
  pub back : List ConfDirective
  pub splits : ds ≡ front ++ here ∷ back

-- What `modprobe` makes of the install directives for a module: the last one counts.
abbrev pub LastInstall : Text → List ConfDirective → Option Text → Type 0
LastInstall m ds none = All (λ d. ¬ Is "install" m d) ds
LastInstall m ds (some t) =
    (p : Place ds) × Is "install" m p.here
    × (t ≡ join (codes " ") p.here.args)
    × All (λ d. ¬ Is "install" m d) p.back

skips : Text → ConfDirective → Bool
skips m d = not (equal d.kind (codes "install")) || not (equal d.module_name m)

skips_iff : (m : Text) (d : ConfDirective) → (skips m d ≡ false) ↔ Is "install" m d
unfolding skips
skips_iff m d = ground (arith, equal_iff d.kind (codes "install"), equal_iff d.module_name m)

abbrev cons_place : {ds : List ConfDirective} → (d : ConfDirective) → Place ds → Place (d ∷ ds)
cons_place d p = record {
  front = d ∷ p.front;
  here = p.here;
  back = p.back;
  splits = ap (◌∷◌ d) p.splits;
}

-- The loop keeps the target that it starts with, or ends with that of the last install directive.
data Ends (m : Text) (ds : List ConfDirective) (start : Option Text) (last : Option Text)
    : Type 0 where
  unchanged : last ≡ start → All (λ d. ¬ Is "install" m d) ds → Ends m ds start last
  replaced :
      (p : Place ds)
      → Is "install" m p.here
      → All (λ d. ¬ Is "install" m d) p.back
      → last ≡ some (join (codes " ") p.here.args)
      → Ends m ds start last

Ends-skip :
    {m : Text} {d : ConfDirective} {ds : List ConfDirective} {a b : Option Text}
    → ¬ Is "install" m d
    → Ends m ds a b
    → Ends m (d ∷ ds) a b
Ends-skip n (unchanged e h) = unchanged e (n, h)
Ends-skip {d} n (replaced p i h e) = replaced (cons_place d p) i h e

Ends-take :
    {m : Text} {d : ConfDirective} {ds : List ConfDirective} {a b : Option Text}
    → Is "install" m d
    → Ends m ds (some (join (codes " ") d.args)) b
    → Ends m (d ∷ ds) a b
Ends-take {d} {ds} i (unchanged e h) =
    replaced (record { front = []; here = d; back = ds; splits = refl }) i h e
Ends-take {d} i (replaced p j h e) = replaced (cons_place d p) j h e

install_loop-Ends :
    (o : Option Text) (ds : List ConfDirective) (m : Text) → Ends m ds o (install_loop o ds m)
unfolding install_loop skips
install_loop-Ends o [] m = unchanged refl tt
install_loop-Ends o (d ∷ ds) m = elim (Bool-cases (skips m d)) [
  | inl s ↦ rw s (Ends-skip (λ i. cc (s, (skips_iff m d).1 i)) (install_loop-Ends o ds m))
  | inr t ↦
      rw t
        (Ends-take ((skips_iff m d).0 t) (install_loop-Ends (some (join (codes " ") d.args)) ds m))
]

LastInstall-Ends :
    {m : Text} {ds : List ConfDirective} {o : Option Text} → Ends m ds none o → LastInstall m ds o
LastInstall-Ends {o = none} (unchanged e h) = h
LastInstall-Ends {o = none} (replaced p i h e) = absurd (cc)
LastInstall-Ends {o = some t} (unchanged e h) = absurd (cc)
LastInstall-Ends {o = some t} (replaced p i h e) = (p, i, cc, h)

install_loop-absent :
    (o : Option Text) (ds : List ConfDirective) (m : Text)
    → All (λ d. ¬ Is "install" m d) ds
    → install_loop o ds m ≡ o
unfolding install_loop skips
install_loop-absent o [] m h = refl
install_loop-absent o (d ∷ ds) m (n, h) = elim (Bool-cases (skips m d)) [
  | inl s ↦ rw s (install_loop-absent o ds m h)
  | inr t ↦ absurd (n ((skips_iff m d).0 t))
]

install_loop-place :
    (o : Option Text) (f : List ConfDirective) (d : ConfDirective) (b : List ConfDirective)
    (m : Text)
    → Is "install" m d
    → All (λ d. ¬ Is "install" m d) b
    → install_loop o (f ++ d ∷ b) m ≡ some (join (codes " ") d.args)
unfolding install_loop skips
install_loop-place o [] d b m i h =
    rw ((skips_iff m d).1 i, install_loop)
      (install_loop-absent (some (join (codes " ") d.args)) b m h)
install_loop-place o (e ∷ f) d b m i h = elim (Bool-cases (skips m e)) [
  | inl s ↦ rw (s, install_loop) (install_loop-place o f d b m i h)
  | inr t ↦ rw (t, install_loop) (install_loop-place (some (join (codes " ") e.args)) f d b m i h)
]

LastInstall-install_target :
    (m : Text) (ds : List ConfDirective) (o : Option Text)
    → LastInstall m ds o
    → install_target ds m ≡ o
unfolding install_target
LastInstall-install_target m ds none h = install_loop-absent none ds m h
LastInstall-install_target m ds (some t) (p, i, e, h) =
    rw (p.splits, e) (install_loop-place none p.front p.here p.back m i h)

-- InstallTarget answers with a target exactly if it is that of the last install directive for the
-- module, its arguments joined by blanks, and that there is none exactly if no directive of the list
-- is one.
pub install_target-LastInstall :
    (m : Text) (ds : List ConfDirective) (o : Option Text)
    → (install_target ds m ≡ o) ↔ LastInstall m ds o
unfolding install_target
install_target-LastInstall m ds o = (
  λ e. rw (← e) (LastInstall-Ends (install_loop-Ends none ds m)),
  LastInstall-install_target m ds o,
)

matches_iff :
    (m : Text) (d : ConfDirective)
    → (equal d.kind (codes "blacklist") && equal d.module_name m ≡ true) ↔ Is "blacklist" m d
matches_iff m d = ground (arith, equal_iff d.kind (codes "blacklist"), equal_iff d.module_name m)

blacklisted_at :
    (m : Text) (f : List ConfDirective) (d : ConfDirective) (b : List ConfDirective)
    → Is "blacklist" m d
    → is_blacklisted (f ++ d ∷ b) m ≡ true
unfolding is_blacklisted
blacklisted_at m [] d b i = rw ((matches_iff m d).1 i)
blacklisted_at m (e ∷ f) d b i = ground (arith, blacklisted_at m f d b i)

blacklist_place :
    (m : Text) (ds : List ConfDirective)
    → is_blacklisted ds m ≡ true
    → (p : Place ds) × Is "blacklist" m p.here
unfolding is_blacklisted
blacklist_place m [] h = absurd (cc)
blacklist_place m (d ∷ ds) h =
    elim (Bool-cases (equal d.kind (codes "blacklist") && equal d.module_name m)) [
      | inl t ↦ (record { front = []; here = d; back = ds; splits = refl }, (matches_iff m d).0 t)
      | inr f ↦ let (p, i) = blacklist_place m ds (rw f at h) in (cons_place d p, i)
    ]

-- IsBlacklisted answers true exactly if a blacklist directive for the module stands in the list,
-- wherever it stands.
pub is_blacklisted_iff :
    (m : Text) (ds : List ConfDirective)
    → (is_blacklisted ds m ≡ true) ↔ ((p : Place ds) × Is "blacklist" m p.here)
is_blacklisted_iff m ds =
    (blacklist_place m ds, λ (p, i). rw p.splits (blacklisted_at m p.front p.here p.back i))

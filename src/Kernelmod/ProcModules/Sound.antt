-- ===== src/Kernelmod/ProcModules/Sound.antt =====
-- IsLoaded on what ParseProcModules returns: exactly the modules that the kernel lists.
use copyfail_validation.Base.{
  ℕ, ◌+◌, List, [], ◌∷◌, ◌++◌, Bool, true, false, ◌||◌, Option, none, is_empty, ◌≡◌, ◌⊎◌, inl, inr,
  refl, arith, ◌∙◌, Bool-cases,
}
use copyfail_validation.Text.{Text, equal, trim_space, fields}
use copyfail_validation.Text.Scan.{Reader, ScanError, scan}
use copyfail_validation.Errors.{Error, ok, Try-cases}
use copyfail_validation.Kernelmod.ProcModules.{
  LoadedModule, module_of, parse_proc_modules_line, run, parse_proc_modules, is_loaded,
}

-- The first column of a line.
abbrev pub names : Text → List Text → Bool
names m [] = false
names m (w ∷ ws) = equal w m

-- Some line of the file has the module's name in its first column.
abbrev pub lists : Text → List Text → Bool
lists m [] = false
lists m (l ∷ ls) = names m (fields (trim_space l)) || lists m ls

is_loaded-append :
    (m : Text) (xs : List LoadedModule) (y : LoadedModule)
    → is_loaded (xs ++ y ∷ []) m ≡ (is_loaded xs m || equal y.name m)
unfolding is_loaded
is_loaded-append m [] y = ground arith
is_loaded-append m (x ∷ xs) y = ground (arith, is_loaded-append m xs y)

module_of-name :
    (m : Text) (ws : List Text) (d : LoadedModule)
    → module_of ws ≡ ok d
    → names m ws ≡ equal d.name m
unfolding module_of
module_of-name m [] d h = absurd (cc)
module_of-name m (a ∷ []) d h = absurd (cc)
module_of-name m (a ∷ b ∷ []) d h = absurd (cc)
module_of-name m (a ∷ b ∷ c ∷ []) d h = absurd (cc)
module_of-name m (a ∷ b ∷ c ∷ e ∷ []) d h = absurd (cc)
module_of-name m (name ∷ size ∷ ref_count ∷ used_by ∷ state ∷ rest) d h = ground arith

list_cases : {A : Type 0} → (xs : List A) → (xs ≡ []) ⊎ ((x : A) × (ys : List A) × (xs ≡ x ∷ ys))
list_cases [] = inl refl
list_cases (x ∷ xs) = inr (x, xs, refl)

fields-blank : (s : Text) → is_empty (trim_space s) ≡ true → fields (trim_space s) ≡ []
unfolding fields
fields-blank s h = elim (list_cases (trim_space s)) [
  | inl e ↦ rw e refl
  | inr (c, cs, e) ↦ absurd (cc (e, h))
]

found :
    (m : Text) (mods : List LoadedModule) (ws : List Text) (d : LoadedModule) (ls : List Text)
    → module_of ws ≡ ok d
    → (is_loaded (mods ++ d ∷ []) m || lists m ls)
      ≡ (is_loaded mods m || (names m ws || lists m ls))
found m mods ws d ls e = ground (arith, is_loaded-append m mods d, module_of-name m ws d e)

run-lists :
    (m : Text) (mods : List LoadedModule) (n : ℕ) (ls : List Text) (stop : Option (ScanError Error))
    → (run mods n ls stop).err ≡ none
    → is_loaded (run mods n ls stop).value m ≡ (is_loaded mods m || lists m ls)
unfolding run parse_proc_modules_line
run-lists m mods n [] stop h = ground arith
run-lists m mods n (l ∷ ls) stop h = elim (Bool-cases (is_empty (trim_space l))) [
  | inl b ↦ rw (b, fields-blank l b) (run-lists m mods (n + 1) ls stop (rw b at h))
  | inr w ↦ elim (Try-cases (parse_proc_modules_line (trim_space l))) [
    | inl (d, e) ↦
        rw (w, e)
          (run-lists m (mods ++ d ∷ []) (n + 1) ls stop (rw (w, e) at h)
            ∙ found m mods (fields (trim_space l)) d ls e)
    | inr (x, e) ↦ absurd (cc (w, e, h))
  ]
]

-- Where ParseProcModules reports no error, IsLoaded answers true exactly if some line of the file
-- names the module in its first column: no line is lost, and none is made up.
pub is_loaded-parse_proc_modules :
    (r : Reader Error) (m : Text)
    → (parse_proc_modules r).err ≡ none
    → is_loaded (parse_proc_modules r).value m ≡ lists m (scan r).lines
unfolding parse_proc_modules is_loaded
is_loaded-parse_proc_modules r m h = run-lists m [] 0 (scan r).lines (scan r).stop h

-- ===== src/Engine/Transfer/Reader/Occurrences.antt =====
-- How often a hash stands in a list of runs of `chunkReader` (engine/sync.ts).
use edgeproc_browser.Base.{
  ℕ, suc, ◌+◌, ◌≤◌, ◌≡◌, refl, Bool, true, false, List, [], ◌∷◌, ◌++◌, if◌then◌else◌, Text, text_eq,
  text_eq_iff, length, arith,
}
use edgeproc_browser.Base.Table.{contains}
use edgeproc_browser.Engine.Transfer.Reader.{take_out}

-- How often a hash stands in a list.
unfoldable pub occurrences : List Text → Text → ℕ
occurrences [] h = 0
occurrences (j ∷ js) h = if text_eq j h then suc (occurrences js h) else occurrences js h

abbrev pub one_if : Bool → ℕ
one_if true = 1
one_if false = 0

pub occurrences-append :
    (xs ys : List Text) (h : Text) → occurrences (xs ++ ys) h ≡ occurrences xs h + occurrences ys h
unfolding occurrences
occurrences-append [] ys h = omega arith
occurrences-append (x ∷ xs) ys h = ground (arith, occurrences-append xs ys h)

-- Taking one out of a list that has it.
pub occurrences-take_out :
    (xs : List Text) (k h : Text)
    → contains xs k ≡ true
    → occurrences (take_out xs k) h + one_if (text_eq k h) ≡ occurrences xs h
unfolding occurrences take_out contains
occurrences-take_out [] k h e = cc
occurrences-take_out (x ∷ xs) k h e =
    ground (arith, text_eq_iff x k, text_eq_iff x h, text_eq_iff k h, occurrences-take_out xs k h)

pub length-take_out :
    (xs : List Text) (k : Text) → contains xs k ≡ true → suc (length (take_out xs k)) ≡ length xs
unfolding take_out contains
length-take_out [] k e = cc
length-take_out (x ∷ xs) k e = ground (arith, length-take_out xs k)

pub contains-occurrences : (xs : List Text) (k : Text) → contains xs k ≡ true → 1 ≤ occurrences xs k
unfolding contains occurrences
contains-occurrences [] k e = cc
contains-occurrences (x ∷ xs) k e = ground (arith, contains-occurrences xs k)

pub occurrences-contains :
    (xs : List Text) (k : Text) → contains xs k ≡ false → occurrences xs k ≡ 0
unfolding contains occurrences
occurrences-contains [] k e = refl
occurrences-contains (x ∷ xs) k e = ground (arith, occurrences-contains xs k)

pub occurrences_one : (h k : Text) → occurrences (h ∷ []) k ≡ one_if (text_eq h k)
unfolding occurrences
occurrences_one h k = ground arith

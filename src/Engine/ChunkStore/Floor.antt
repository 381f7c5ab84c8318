-- ===== src/Engine/ChunkStore/Floor.antt =====
-- engine/sqliteStore.ts: the rollback floor over any history of calls.
use edgeproc_browser.Base.{
  ℕ, ◌≡◌, sym, ◌∙◌, ap, subst, true, false, Option, none, some, List, ok, err, Outcome, Bool-cases,
  inl, inr, Text,
}
use edgeproc_browser.Base.Effects.{Exec, Fixes, ◌>>=◌, after, lift}
use edgeproc_browser.Engine.Fault.{Fault}
use edgeproc_browser.Engine.ActivePointer.{VersionPointer, same_pointer}
use edgeproc_browser.Engine.FloorGate.{FloorRow}
use edgeproc_browser.Engine.FloorGate.Admitted.{
  not_higher-AtMost, AtMost, AtMost-refl, AtMost-trans,
}
use edgeproc_browser.Engine.Tables.{
  Tables, PointerRow, VerifiedChunk, read_row, write_row, floor_row, lowers,
}
use edgeproc_browser.Engine.ChunkStore.{
  note_copied, insert_manifests, insert_rows, Store, LegacyImport, transaction, promote_work,
  clear_active_if_work, import_work, raise_work,
}
use edgeproc_browser.Engine.ChunkStore.Steady.{
  insert_manifests-row, insert_rows-row, row_of, transaction-cases,
}

abbrev pub floor_in : Tables → Option ℕ
floor_in t = (read_row t).floor_sequence

abbrev pub floor_of : Store → Option ℕ
floor_of s = floor_in s.tables

abbrev pub row_floor : Option PointerRow → Option ℕ
row_floor o = (floor_row o).floor_sequence

-- The floor is where it was, or higher.
pub record Rises {S A : Type 0} (floor : S → Option ℕ) (m : Exec Fault S A) : Type 0 where
  pub at : (s : S) → AtMost (floor s) (floor (m s).1)

pub same-AtMost : (a b : Option ℕ) → b ≡ a → AtMost a b
same-AtMost a b e = subst (AtMost a) (sym e) (AtMost-refl a)

pub Fixes-Rises : {A : Type 0} (m : Exec Fault Store A) → Fixes row_of m → Rises floor_of m
unfolding read_row
Fixes-Rises m k = record { at = λ s. same-AtMost _ _ (ap row_floor (k.at s)) }

pub Rises-bind :
    {S A B : Type 0} {floor : S → Option ℕ} (m : Exec Fault S A) (f : A → Exec Fault S B)
    → Rises floor m
    → ((a : A) → Rises floor (f a))
    → Rises floor (m >>= f)
unfolding ◌>>=◌
Rises-bind {S} {A} {floor = floor} m f km kf = record { at = λ s. go s (m s) (km.at s) }
  where
    go :
        (s : S) (r : Outcome Fault A × S)
        → AtMost (floor s) (floor r.1)
        → AtMost (floor s) (floor (after f r).1)
    go s (ok a, t) h = AtMost-trans _ _ _ h ((kf a).at t)
    go s (err x, t) h = h

not_lowers-AtMost :
    (o : Option PointerRow) (row : FloorRow)
    → lowers o row ≡ false
    → AtMost (floor_row o).floor_sequence row.floor_sequence
not_lowers-AtMost none row h = tt
not_lowers-AtMost (some old) row h = not_higher-AtMost old.floor_sequence row.floor_sequence h

-- A row that is written has the floor that it was given.
pub write_row-floor :
    (row : FloorRow) (t u : Tables) → write_row row t ≡ (ok tt, u) → floor_in u ≡ row.floor_sequence
unfolding write_row read_row
write_row-floor row t u h = elim (Bool-cases (lowers t.active_pointer row)) [
  | inl e ↦ let bad = rw e at h in absurd (cc)
  | inr e ↦ let good = rw e at h in ap (λ r. row_floor r.1.active_pointer) (sym good)
]

-- The trigger: whatever row is written, the floor is not lowered.
write_row-Rises : (row : FloorRow) → Rises floor_in (write_row row)
unfolding write_row read_row
write_row-Rises row = record {
  at = λ t. elim (Bool-cases (lowers t.active_pointer row)) [
    | inl e ↦ rw e (AtMost-refl _)
    | inr e ↦ rw e (not_lowers-AtMost t.active_pointer row e)
  ];
}

pub transaction-Rises :
    {A : Type 0} (disk : ℕ → Option Fault) (work : Exec Fault Tables A)
    → Rises floor_in work
    → Rises floor_of (transaction disk work)
transaction-Rises disk work k = record {
  at = λ s.
      transaction-cases disk (λ r. AtMost (floor_of s) (floor_of r.1)) work s (λ e n. AtMost-refl _)
        λ a t e _. subst (λ r. AtMost (floor_of s) (floor_in r.1)) e (k.at s.tables);
}

-- Tables with other chunks and manifests, and the same floor.
moved-Rises :
    {A : Type 0} (m : Exec Fault Tables A) (t u : Tables)
    → u.active_pointer ≡ t.active_pointer
    → Rises floor_in m
    → AtMost (floor_in t) (floor_in (m u).1)
unfolding read_row
moved-Rises m t u e k = AtMost-trans _ _ _ (same-AtMost _ _ (ap row_floor e)) (k.at u)

pub lift-Rises : {S A : Type 0} {floor : S → Option ℕ} (r : Outcome Fault A) → Rises floor (lift r)
lift-Rises r = record { at = λ s. AtMost-refl _ }

pub raise_work-Rises :
    (pointers : List (Option VersionPointer)) → Rises floor_in (raise_work pointers)
unfolding raise_work
raise_work-Rises pointers = record { at = λ t. (write_row-Rises _).at t }

pub clear_active_if_work-Rises :
    (expected : VersionPointer) → Rises floor_in (clear_active_if_work expected)
unfolding clear_active_if_work
clear_active_if_work-Rises expected = record {
  at = λ t. elim (Bool-cases (same_pointer (read_row t).pointer expected)) [
    | inl e ↦ rw e ((Rises-bind _ _ (write_row-Rises _) λ _. lift-Rises (ok true)).at t)
    | inr e ↦ rw e (AtMost-refl _)
  ];
}

pub promote_work-Rises :
    (pending : List VerifiedChunk) (p : VersionPointer) (chunks : Option (List Text))
    → Rises floor_in (promote_work pending p chunks)
unfolding promote_work
promote_work-Rises pending p chunks = record {
  at = λ t.
      moved-Rises _ t (insert_rows pending t) (insert_rows-row pending t)
        (Rises-bind _ _ (Rises-bind _ _ (lift-Rises _) λ _. lift-Rises _) λ _. write_row-Rises _);
}

note_copied-Rises : Rises floor_in note_copied
unfolding note_copied read_row
note_copied-Rises = record { at = λ t. AtMost-refl _ }

pub import_work-Rises : (input : LegacyImport) → Rises floor_in (import_work input)
unfolding import_work
import_work-Rises input = record {
  at = λ t.
      let inserted = insert_manifests input.manifests (insert_rows input.chunks t) in
      moved-Rises _ t inserted
        (insert_manifests-row input.manifests _ ∙ insert_rows-row input.chunks t)
        (Rises-bind _ _ (write_row-Rises _) λ _. note_copied-Rises);
}

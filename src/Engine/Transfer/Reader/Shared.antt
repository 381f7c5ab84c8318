-- ===== src/Engine/Transfer/Reader/Shared.antt =====
-- engine/sync.ts: how many chunks are read at once, and how often each.
use edgeproc_browser.Base.{
  ◌⊎◌, ℕ, suc, ◌+◌, ◌-◌, ◌≤◌, ◌≡◌, ◌≢◌, refl, ap, subst, true, false, Option, none, some, List, [],
  ◌∷◌, leb, if◌then◌else◌, Text, text_eq, text_eq_iff, length, arith, Bool-cases, inl, inr,
}
use edgeproc_browser.Base.Table.{contains}
use edgeproc_browser.Engine.Fault.{Fault}
use edgeproc_browser.Engine.Transfer.Reader.{
  Reader, new_reader, take_out, shifted, wake, end_run, enter_if, go_on, request, kept_failure,
  settle_read, ReaderEvent, asked, woke, dropped, drop, settled, reader_turn, reader_run,
}
use edgeproc_browser.Engine.Transfer.Reader.Occurrences.{
  occurrences, one_if, occurrences-append, occurrences-take_out, length-take_out,
  contains-occurrences, occurrences-contains, occurrences_one,
}

-- The runs of a hash: it is read, or has been called, or waits, or is over.
abbrev runs_of : Reader → Text → ℕ
runs_of r h =
    occurrences r.reads h + occurrences r.woken h + occurrences r.waiting h + occurrences r.over h

-- `active` counts the reads, eight at most; every run is in flight, and a hash has one run at most.
pub record IsBooked (r : Reader) : Type 0 where
  pub counted : r.active ≡ length r.reads
  pub capped : r.active ≤ 8
  pub runs : (h : Text) → runs_of r h ≡ occurrences r.in_flight h
  pub single : (h : Text) → occurrences r.in_flight h ≤ 1

-- Where a run waits, another one is there that will call it.
abbrev pub IsCalled : Reader → Type 0
IsCalled r = r.waiting ≢ [] → 1 ≤ r.active + length r.woken

-- The same while the run of `h` is between two places.
record IsBookedBut (h : Text) (r : Reader) : Type 0 where
  pub counted : r.active ≡ length r.reads
  pub capped : r.active ≤ 8
  pub runs : (k : Text) → runs_of r k + one_if (text_eq h k) ≡ occurrences r.in_flight k
  pub single : (k : Text) → occurrences r.in_flight k ≤ 1

shifted-IsBooked :
    (ws : List Text) (r : Reader)
    → r.waiting ≡ ws
    → IsBooked r
    → IsBooked (shifted ws r) × IsCalled (shifted ws r)
unfolding occurrences
shifted-IsBooked [] r e b = (b, λ ne. absurd (ne e))
shifted-IsBooked (w ∷ ws) r e b = (
  record {
    counted = b.counted;
    capped = b.capped;
    runs = λ h.
        let was : occurrences r.waiting h ≡ occurrences (w ∷ ws) h =
          ap (λ (xs : List Text). occurrences xs h) e in
        let total = b.runs h in ground arith;
    single = b.single;
  },
  λ ne. omega arith,
)

wake-IsBooked : (r : Reader) → IsBooked r → IsBooked (wake r) × IsCalled (wake r)
unfolding wake
wake-IsBooked r b = shifted-IsBooked r.waiting r refl b

end_run-IsBooked : (h : Text) (r : Reader) → IsBookedBut h r → IsBooked (end_run h r)
unfolding occurrences
end_run-IsBooked h r b = record {
  counted = b.counted;
  capped = b.capped;
  runs = λ k. let total = b.runs k in ground arith;
  single = b.single;
}

is_in_flight :
    (h : Text) (r : Reader) → contains r.over h ≡ true → IsBooked r → contains r.in_flight h ≡ true
is_in_flight h r there b = elim (Bool-cases (contains r.in_flight h)) [
  | inl e ↦ e
  | inr e ↦
      let total = b.runs h in
      let none_there = occurrences-contains r.in_flight h e in
      let one = contains-occurrences r.over h there in
      absurd (omega (arith, total, none_there, one))
]

drop-IsBooked :
    (h : Text) (r : Reader) → contains r.over h ≡ true → IsBooked r → IsBooked (drop h r)
drop-IsBooked h r there b = record {
  counted = b.counted;
  capped = b.capped;
  runs = λ k.
      let total = b.runs k in
      let less = occurrences-take_out r.over h k there in
      let fewer = occurrences-take_out r.in_flight h k (is_in_flight h r there b) in
      omega (arith, total, less, fewer);
  single = λ k.
      let one = b.single k in
      let fewer = occurrences-take_out r.in_flight h k (is_in_flight h r there b) in
      omega (arith, one, fewer);
}

enter_if-IsBooked :
    (o : Option Fault) (h : Text) (r : Reader)
    → IsBookedBut h r
    → r.active ≤ 7
    → IsBooked (enter_if o h r) × IsCalled (enter_if o h r)
unfolding occurrences
enter_if-IsBooked (some e) h r b free = wake-IsBooked _ (end_run-IsBooked h r b)
enter_if-IsBooked none h r b free = (
  record {
    counted = ap suc b.counted;
    capped = omega (arith, free);
    runs = λ k. let total = b.runs k in ground arith;
    single = b.single;
  },
  λ ne. omega arith,
)

go_on-IsBooked :
    (h : Text) (r : Reader) → IsBookedBut h r → IsBooked (go_on h r) × IsCalled (go_on h r)
unfolding go_on
go_on-IsBooked h r b = elim (Bool-cases (leb 8 r.active)) [
  | inl e ↦ rw e (
    record {
      counted = b.counted;
      capped = b.capped;
      runs = λ k.
          let total = b.runs k in
          let added = occurrences-append r.waiting (h ∷ []) k in
          let one = occurrences_one h k in omega (arith, total, added, one);
      single = b.single;
    },
    λ ne. let full : 8 ≤ r.active = ground arith in omega (arith, full),
  )
  | inr e ↦ rw e (enter_if-IsBooked r.failure h r b (ground arith))
]

-- What holds between the turns.
pub record IsShared (r : Reader) : Type 0 where
  pub booked : IsBooked r
  pub called : IsCalled r

IsShared-of : (r : Reader) → IsBooked r × IsCalled r → IsShared r
IsShared-of r (b, c) = record { booked = b; called = c }

asked-IsBookedBut :
    (h : Text) (r : Reader)
    → contains r.in_flight h ≡ false
    → IsBooked r
    → IsBookedBut h (record r { in_flight = h ∷ r.in_flight })
unfolding occurrences
asked-IsBookedBut h r new b = record {
  counted = b.counted;
  capped = b.capped;
  runs = λ k. let total = b.runs k in ground arith;
  single = λ k.
      let one = b.single k in
      let none_there = occurrences-contains r.in_flight h new in
      fits k (Bool-cases (text_eq h k)) one none_there;
}
  where
    fits :
        (k : Text)
        → (text_eq h k ≡ true) ⊎ (text_eq h k ≡ false)
        → occurrences r.in_flight k ≤ 1
        → occurrences r.in_flight h ≡ 0
        → (if text_eq h k then suc (occurrences r.in_flight k) else occurrences r.in_flight k) ≤ 1
    fits k (inl e) one zero_there =
        let there : occurrences r.in_flight k ≡ 0 =
          subst (λ (j : Text). occurrences r.in_flight j ≡ 0) ((text_eq_iff h k).0 e) zero_there in
        rw e (omega (arith, there))
    fits k (inr e) one zero_there = rw e one

woke-IsBookedBut :
    (h : Text) (r : Reader)
    → contains r.woken h ≡ true
    → IsBooked r
    → IsBookedBut h (record r { woken = take_out r.woken h })
woke-IsBookedBut h r there b = record {
  counted = b.counted;
  capped = b.capped;
  runs = λ k.
      let total = b.runs k in
      let less = occurrences-take_out r.woken h k there in omega (arith, total, less);
  single = b.single;
}

settled-IsBookedBut :
    (h : Text) (failure : Option Fault) (r : Reader)
    → contains r.reads h ≡ true
    → IsBooked r
    → IsBookedBut h
        (record r { active = r.active - 1; reads = take_out r.reads h; failure = failure })
settled-IsBookedBut h failure r there b = record {
  counted =
      let all = b.counted in let less = length-take_out r.reads h there in omega (arith, all, less);
  capped = let most = b.capped in omega (arith, most);
  runs = λ k.
      let total = b.runs k in
      let less = occurrences-take_out r.reads h k there in omega (arith, total, less);
  single = b.single;
}

turn-IsShared : (event : ReaderEvent) (r : Reader) → IsShared r → IsShared (reader_turn event r)
unfolding reader_turn request settle_read
turn-IsShared (asked h) r s = elim (Bool-cases (contains r.in_flight h)) [
  | inl e ↦ rw e s
  | inr e ↦ rw e (IsShared-of _ (go_on-IsBooked h _ (asked-IsBookedBut h r e s.booked)))
]
turn-IsShared (woke h) r s = elim (Bool-cases (contains r.woken h)) [
  | inl e ↦ rw e (IsShared-of _ (go_on-IsBooked h _ (woke-IsBookedBut h r e s.booked)))
  | inr e ↦ rw e s
]
turn-IsShared (dropped h) r s = elim (Bool-cases (contains r.over h)) [
  | inl e ↦ rw e (record { booked = drop-IsBooked h r e s.booked; called = s.called })
  | inr e ↦ rw e s
]
turn-IsShared (settled h answer) r s = elim (Bool-cases (contains r.reads h)) [
  | inl e ↦ rw e (
      IsShared-of _ (
        wake-IsBooked _ (
          end_run-IsBooked h _
            (settled-IsBookedBut h (kept_failure r.failure answer) r e s.booked))))
  | inr e ↦ rw e s
]

reader_run-IsShared_from :
    (events : List ReaderEvent) (r : Reader) → IsShared r → IsShared (reader_run events r)
unfolding reader_run
reader_run-IsShared_from [] r s = s
reader_run-IsShared_from (event ∷ events) r s =
    reader_run-IsShared_from events (reader_turn event r) (turn-IsShared event r s)

new_reader-IsShared : IsShared new_reader
unfolding occurrences
new_reader-IsShared = record {
  booked = record {
    counted = refl;
    capped = omega arith;
    runs = λ h. omega arith;
    single = λ h. omega arith;
  };
  called = λ ne. absurd (ne refl);
}

-- Whatever the files ask for, and in whatever order the reads settle and the runs that were called go
-- on: `active` counts the reads that are under way, and these are eight at most; a chunk has one run at
-- most, so no chunk is read twice at once; and while a run waits, a read is under way or a run has been
-- called, which will call the next.
pub reader_run-IsShared : (events : List ReaderEvent) → IsShared (reader_run events new_reader)
reader_run-IsShared events = reader_run-IsShared_from events new_reader new_reader-IsShared

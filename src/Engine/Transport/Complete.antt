-- ===== src/Engine/Transport/Complete.antt =====
-- engine/fetchBytes.ts: when a body is returned, and that it is then whole and within its cap.
use edgeproc_browser.Base.{
  subst, ℕ, ◌+◌, ◌≤◌, ◌<◌, ◌≡◌, ◌↔◌, refl, sym, ◌∙◌, ap, Bool, true, false, Option, List, [], ◌∷◌,
  ◌++◌, ltb, if◌then◌else◌, Bytes, length, length-append, ok, err, ok-injective, arith, All,
}
use edgeproc_browser.Engine.Json.{Number}
use edgeproc_browser.Engine.Fault.{Result, network, response_too_large}
use edgeproc_browser.Engine.Transport.{
  Ending, finished, broken, silent, stream, headers, watched, response_limit, ended, after_part,
  read_parts, exceeds_cap, read_capped, fetch_bytes,
}

-- The parts one after the other.
abbrev pub joined : List (ℕ × Bytes) → Bytes
joined [] = []
joined ((silence, part) ∷ parts) = part ++ joined parts

-- The body comes to its end, no silence in it being as long as the window.
abbrev pub IsTimelyEnd : Ending → Type 0
IsTimelyEnd (finished silence) = silence < 30000
IsTimelyEnd (broken silence e) = ⊥
IsTimelyEnd silent = ⊥

abbrev pub IsTimely : List (ℕ × Bytes) → Ending → Type 0
IsTimely parts ending = All (λ a. a.0 < 30000) parts × IsTimelyEnd ending

watched_iff :
    {A : Type 0} (silence : ℕ) (r : Result A) (a : A)
    → (watched silence r ≡ ok a) ↔ ((silence < 30000) × (r ≡ ok a))
unfolding watched
watched_iff silence r a = ((λ h. ground arith), (λ (early, e). ground arith))

ended_iff :
    (ending : Ending) (bytes : Bytes)
    → (ended ending ≡ ok bytes) ↔ (IsTimelyEnd ending × ([] ≡ bytes))
unfolding ended
ended_iff (finished silence) bytes = (
  λ h. let (early, e) = (watched_iff silence (ok []) bytes).0 h in (early, ok-injective e),
  λ (early, e). (watched_iff silence (ok []) bytes).1 (early, ap ok e),
)
ended_iff (broken silence e) bytes = (
  λ h. let (early, k) = (watched_iff silence (err e) bytes).0 h in absurd (cc),
  λ (never, e). absurd never,
)
ended_iff silent bytes = ((λ h. absurd (cc)), (λ (never, e). absurd never))

after_part_iff :
    (part bytes : Bytes) (r : Result Bytes)
    → (after_part part r ≡ ok bytes) ↔ ((rest : Bytes) × (r ≡ ok rest) × (part ++ rest ≡ bytes))
after_part_iff part bytes (ok rest) = (
  (λ h. (rest, refl, ok-injective h)),
  (λ (other, e, k). ap (λ (r : Bytes). ok (part ++ r)) (ok-injective e) ∙ ap ok k),
)
after_part_iff part bytes (err x) = ((λ h. absurd (cc)), (λ (other, e, k). absurd (cc)))

-- From a total within the cap, the loop returns exactly if the stream is timely and stays within the
-- cap; it returns all the parts in their order.
pub read_parts_iff :
    (limit total : ℕ) (parts : List (ℕ × Bytes)) (ending : Ending) (bytes : Bytes)
    → total ≤ limit
    → (read_parts limit total parts ending ≡ ok bytes)
      ↔ (IsTimely parts ending × (total + length (joined parts) ≤ limit) × (joined parts ≡ bytes))
unfolding read_parts
read_parts_iff limit total [] ending bytes within = (
  λ h. let (timely, e) = (ended_iff ending bytes).0 h in ((tt, timely), omega (arith, within), e),
  λ ((_, timely), _, e). (ended_iff ending bytes).1 (timely, e),
)
read_parts_iff limit total ((silence, part) ∷ parts) ending bytes within = (
  λ h.
      let (early, passed) = (watched_iff silence _ bytes).0 h in
      let (fits, more) = under (ltb limit (total + length part)) refl passed in
      let (rest, returned, all) = (after_part_iff part bytes _).0 more in
      let ((timely, ends), capped, same) =
        (read_parts_iff limit (total + length part) parts ending rest fits).0 returned in
      (
        ((early, timely), ends),
        (let long = length-append part (joined parts) in omega (arith, capped, long)),
        ap (λ (r : Bytes). part ++ r) same ∙ all,
      ),
  λ (((early, timely), ends), capped, same).
      let long = length-append part (joined parts) in
      let fits : total + length part ≤ limit = omega (arith, capped, long) in
      let returned =
        (read_parts_iff limit (total + length part) parts ending (joined parts) fits).1
          ((timely, ends), omega (arith, capped, long), refl) in
      (watched_iff silence _ bytes).1 (
        early,
        over (ltb limit (total + length part)) (ground arith)
            ((after_part_iff part bytes _).1 (joined parts, returned, same)),
      ),
)
  where
    under :
        (b : Bool)
        → ltb limit (total + length part) ≡ b
        → (if b
            then err response_too_large
            else after_part part (read_parts limit (total + length part) parts ending))
          ≡ ok bytes
        → (total + length part ≤ limit)
          × (after_part part (read_parts limit (total + length part) parts ending) ≡ ok bytes)
    under true e h = absurd (cc)
    under false e h = (ground arith, h)

    over :
        (b : Bool)
        → b ≡ false
        → after_part part (read_parts limit (total + length part) parts ending) ≡ ok bytes
        → (if b
            then err response_too_large
            else after_part part (read_parts limit (total + length part) parts ending))
          ≡ ok bytes
    over true e h = absurd (cc)
    over false e h = h

-- `fetchBytes` of a streamed body returns exactly if the response is ok, its declared length is within
-- the cap, the headers and each part and the end come within 30 seconds of what came before, and all
-- parts together are within the cap, however long they take in all; it returns them in their order.
pub fetch_bytes_iff :
    (silence limit : ℕ) (is_ok : Bool) (declared : Option ℕ) (parts : List (ℕ × Bytes))
    (ending : Ending) (max_bytes : Option Number) (bytes : Bytes)
    → response_limit max_bytes ≡ ok limit
    → (fetch_bytes
          (headers silence
            (record { is_ok = is_ok; declared = declared; body = stream parts ending }))
          max_bytes
        ≡ ok bytes)
      ↔ ((silence < 30000)
          × (is_ok ≡ true)
          × (exceeds_cap declared limit ≡ false)
          × IsTimely parts ending
          × (length bytes ≤ limit)
          × (joined parts ≡ bytes))
unfolding fetch_bytes read_capped
fetch_bytes_iff silence limit is_ok declared parts ending max_bytes bytes capped = (
  λ h.
      let (early, passed) = (watched_iff silence _ bytes).0 h in
      let (fine, small, read) = opened is_ok (exceeds_cap declared limit) (rw capped at passed) in
      let (timely, fits, same) = (read_parts_iff limit 0 parts ending bytes (omega arith)).0 read in
      (
        early,
        fine,
        small,
        timely,
        subst (λ (bs : Bytes). length bs ≤ limit) same (omega (arith, fits)),
        same,
      ),
  λ (early, fine, small, timely, fits, same).
      let long : length (joined parts) ≤ limit =
        subst (λ (bs : Bytes). length bs ≤ limit) (sym same) fits in
      let read =
        (read_parts_iff limit 0 parts ending bytes (omega arith)).1
          (timely, omega (arith, long), same) in
      (watched_iff silence _ bytes).1 (early, rw (fine, capped, small) read),
)
  where
    opened :
        (a b : Bool)
        → (if a
            then (if b then err response_too_large else read_parts limit 0 parts ending)
            else err (network "status"))
          ≡ ok bytes
        → (a ≡ true) × (b ≡ false) × (read_parts limit 0 parts ending ≡ ok bytes)
    opened true false h = (refl, refl, h)
    opened true true h = absurd (cc)
    opened false b h = absurd (cc)

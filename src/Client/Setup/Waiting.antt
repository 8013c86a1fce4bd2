-- ===== src/Client/Setup/Waiting.antt =====
-- Which files wait for their content (client/manager.go, util/receive/image.go).
use starlight.Prelude.{
  ℕ, ◌<◌, ◌≡◌, refl, not, none, some, List, [], ◌∷◌, map, arith, ltb, nat_comparable,
  text_comparable, if◌then◌else◌, All,
}
use starlight.Client.Setup.{set_all_ready, set_ready, cons_file}
use starlight.Client.Receive.{ReferencedFile, is_ready, in_payload}
use mathlib.Core.Path.{ap₂}

abbrev pub waits_for : ReferencedFile → ReferencedFile
waits_for f = record f { ready = if in_payload f then some f.payload_order else none }

abbrev pub InRange : ℕ → ReferencedFile → Type 0
InRange n f = f.payload_order < n

set_ready-waits_for :
    (n : ℕ) (f : ReferencedFile) → InRange n f → set_ready n f ≡ some (waits_for f)
unfolding set_ready in_payload
set_ready-waits_for n f h = ground (arith, h)

abbrev pub Waits : ReferencedFile → Type 0
Waits f = is_ready f ≡ not (ltb 0 f.payload_order)

waits_for-Waits : (f : ReferencedFile) → Waits (waits_for f)
unfolding is_ready in_payload
waits_for-Waits f = ground arith

-- If every file has the number of a content, then `Init` finds a signal for each, and exactly the
-- files with the number 0 do not wait: those whose content comes first, as well as those that are not
-- in the payload.
pub set_all_ready-Waits :
    (n : ℕ) (fs : List ReferencedFile)
    → All (InRange n) fs
    → (set_all_ready n fs ≡ some (map waits_for fs)) × All Waits (map waits_for fs)
unfolding set_all_ready
set_all_ready-Waits n [] h = (refl, tt)
set_all_ready-Waits n (f ∷ fs) h =
    let (e, w) = set_all_ready-Waits n fs h.1 in
    (ap₂ cons_file (set_ready-waits_for n f h.0) e, (waits_for-Waits f, w))

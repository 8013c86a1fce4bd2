-- ===== src/Client/Setup/Signals.antt =====
-- Which layers are taken to be complete before the payload is unpacked (client/manager.go).
use starlight.Prelude.{
  ℕ, ◌+◌, String, ◌≡◌, refl, sym, ap, ◌∙◌, Bool, true, false, Option, some, List, [], ◌∷◌, ◌++◌,
  map, append_assoc, arith, nat_comparable, text_comparable, if◌then◌else◌, length, modify,
  length-append, All,
}
use starlight.Client.Setup.{mark_layers, not_completed, prepare_directories}
use starlight.Client.Extract.{Manager, Os}
use starlight.Client.Receive.{ImageLayer}
use mathlib.Core.Option

-- The directory of the layer can be made.
abbrev pub Makeable : Os → ImageLayer → Type 0
Makeable os l = os.mkdir_all l.local "" ≡ true

abbrev pub known : (String → Bool) → List ImageLayer → List Bool
known has ls = map (λ (l : ImageLayer). has l.hash) ls

modify-length :
    (done : List Bool) (old : Bool) (rest : List Bool) (new : Bool)
    → modify (done ++ old ∷ rest) (length done) (λ _. new) ≡ done ++ new ∷ rest
modify-length [] old rest new = refl
modify-length (x ∷ done) old rest new = ap (λ l. x ∷ l) (modify-length done old rest new)

module _ (os : Os) (has : String → Bool) where
  mark_layers_step :
      (l : ImageLayer) (ls : List ImageLayer) (idx : ℕ) (completed : List Bool)
      → Makeable os l
      → mark_layers os has (l ∷ ls) idx completed
        ≡ mark_layers os has ls (idx + 1) (modify completed idx (λ _. has l.hash))
  unfolding mark_layers
  mark_layers_step l ls idx completed h = either (has l.hash) _ _ h
    where
      either :
          (b : Bool) (rest other : Option (List Bool))
          → os.mkdir_all l.local "" ≡ true
          → (if b then rest else (if os.mkdir_all l.local "" then rest else other)) ≡ rest
      either b rest other p = ground (arith, p)

  mark_layers-known :
      (ls : List ImageLayer) (done : List Bool) (serials : List ℕ)
      → All (Makeable os) ls
      → length serials ≡ length ls
      → mark_layers os has ls (length done) (done ++ not_completed serials)
        ≡ some (done ++ known has ls)
  unfolding not_completed
  mark_layers-known [] done [] h e = unfold mark_layers in refl
  mark_layers-known [] done (s ∷ ss) h e = absurd (omega (arith, e))
  mark_layers-known (l ∷ ls) done [] h e = absurd (omega (arith, e))
  mark_layers-known (l ∷ ls) done (s ∷ ss) h e =
      let here = has l.hash in
      mark_layers_step l ls (length done) (done ++ not_completed (s ∷ ss)) h.0
      ∙ ap (mark_layers os has ls (length done + 1)) (
          modify-length done false (not_completed ss) here
          ∙ sym (append_assoc done (here ∷ []) (not_completed ss)))
      ∙ ap (λ n. mark_layers os has ls n ((done ++ here ∷ []) ++ not_completed ss))
          (sym (length-append done (here ∷ [])))
      ∙ mark_layers-known ls (done ++ here ∷ []) ss h.1 (omega (arith, e))
      ∙ ap some (append_assoc done (here ∷ []) (known has ls))

  -- If the directories of all layers can be made and there is a serial number for each, then the
  -- layers that the client's layer map has are taken for complete and no others, and nothing else of
  -- the manager is changed, whichever layers were complete before.
  pub prepare_directories-known :
      (m : Manager)
      → All (Makeable os) m.destination
      → length m.stack_serial_map ≡ length m.destination
      → prepare_directories os has m ≡ some (record m { completed_stack = known has m.destination })
  unfolding prepare_directories
  prepare_directories-known m h e =
      ap (Option.map (λ (done : List Bool). record m { completed_stack = done }))
        (mark_layers-known m.destination [] m.stack_serial_map h e)

-- ===== src/Proxy/Delta/Order.antt =====
-- The order and the extent of the payload that `computeDelta` lays out (proxy/builder.go).
use starlight.Prelude.{
  ℕ, ◌^◌, ◌≤◌, ◌<◌, String, ◌≡◌, refl, sym, subst, Bool, true, false, List, [], ◌∷◌, arith,
  nat_comparable, text_comparable, All, Apart, Map, MapOrder, Sorter, All-perm,
}
use starlight.Proxy.Delta.{
  sort_contents, compute_delta, content_from, lay_out, new_content, Group, place, find_available,
  deduplicate_existing, requested_files_of, group_requested, find_references,
}
use mathlib.Core.Bool.{false≢true}
use starlight.Proxy.Bundle.{Content, File, RankedFile}
use starlight.Proxy.Database.{Database, get_unique_files}
use starlight.Proxy.Delta.Payload.{IsEmpty, payload_bytes, Contiguous, lay_out-Contiguous}
use starlight.Proxy.Delta.References.{to_send, contents-find_references}
use starlight.Proxy.Builder.{Builder}
use starlight.Proxy.Delta.Grouped.{All-to_send}

abbrev pub Ascends : List Content → Type 0
Ascends = Apart (λ (a b : Content). a.rank ≤ b.rank)

-- The layout keeps the ranks.
All-rank-lay_out :
    (n : ℕ) (cs : List Content) (idx start : ℕ) (h : List RankedFile)
    → All (λ (c : Content). n ≤ c.rank) cs
    → All (λ (c : Content). n ≤ c.rank) (lay_out idx start cs h).contents
unfolding lay_out place
All-rank-lay_out n [] idx start h a = tt
All-rank-lay_out n (c ∷ cs) idx start h a = (a.0, All-rank-lay_out n cs _ _ _ a.1)

Ascends-lay_out :
    (cs : List Content) (idx start : ℕ) (h : List RankedFile)
    → Ascends cs
    → Ascends (lay_out idx start cs h).contents
unfolding lay_out place
Ascends-lay_out [] idx start h a = tt
Ascends-lay_out (c ∷ cs) idx start h a =
    (All-rank-lay_out c.rank cs _ _ _ a.0, Ascends-lay_out cs _ _ _ a.1)

IsEmpty-new_content : (rs : List RankedFile) (g : Group) → IsEmpty (new_content rs g)
unfolding new_content content_from
IsEmpty-new_content rs g = refl

IsEmpty-to_send :
    (existing : Map String File) (rs : List RankedFile) (es : List (String × Group))
    → All IsEmpty (to_send existing rs es)
IsEmpty-to_send existing rs es = All-to_send existing rs IsEmpty es (every es)
  where
    every :
        (xs : List (String × Group)) → All (λ (e : String × Group). IsEmpty (new_content rs e.1)) xs
    every [] = tt
    every (x ∷ xs) = (IsEmpty-new_content rs x.1, every xs)

lay_out-Contiguous_0 :
    (cs : List Content) (h : List RankedFile)
    → All IsEmpty cs
    → payload_bytes (lay_out 0 0 cs h).contents < 2 ^ 63
    → Contiguous 0 (lay_out 0 0 cs h).contents
      × ((lay_out 0 0 cs h).body_length ≡ payload_bytes (lay_out 0 0 cs h).contents)
lay_out-Contiguous_0 cs h e b =
    let (laid, total) = lay_out-Contiguous cs 0 0 h e (omega (arith, b)) in
    (laid, omega (arith, total))

module _ (order : MapOrder (String × Group)) (sorter : Sorter Content (λ c. c.rank))
    (avg : List ℕ → ℕ) where
  sort_contents-Ascends :
      (b : Bool) → b ≡ false → (cs : List Content) → Ascends (sort_contents order sorter avg b cs)
  unfolding sort_contents
  sort_contents-Ascends true p cs = absurd (false≢true (sym p))
  sort_contents-Ascends false p cs = sorter.sort_ascends cs

  -- Unless sorting is disabled, the contents lie in the payload in ascending order of rank.
  pub compute_delta-Ascends :
      (db : Database) (b : Builder)
      → b.disable_sorting ≡ false
      → Ascends (compute_delta order sorter avg db b).contents
  unfolding compute_delta sort_contents
  compute_delta-Ascends db b p =
      Ascends-lay_out _ 0 0 _ (sort_contents-Ascends b.disable_sorting p _)

  sort_contents-IsEmpty :
      (b : Bool) (cs : List Content)
      → All IsEmpty cs
      → All IsEmpty (sort_contents order sorter avg b cs)
  unfolding sort_contents
  sort_contents-IsEmpty true cs h = h
  sort_contents-IsEmpty false cs h = All-perm IsEmpty (sorter.sort_perm cs) h

  -- If the chunks of the payload take less than 2^63 bytes, then the contents lie one after another
  -- from offset 0 on with no gap, each with the size of its chunks, and the body length is the
  -- number of bytes of all chunks.
  pub compute_delta-Contiguous :
      (db : Database) (b : Builder)
      → payload_bytes (compute_delta order sorter avg db b).contents < 2 ^ 63
      → Contiguous 0 (compute_delta order sorter avg db b).contents
        × ((compute_delta order sorter avg db b).body_length
            ≡ payload_bytes (compute_delta order sorter avg db b).contents)
  unfolding compute_delta
  compute_delta-Contiguous db b h =
      let available = find_available b in
      let existing = deduplicate_existing available.ids (get_unique_files db available.layers) [] in
      let rs = requested_files_of order sorter avg db b in
      let es = order.visit (group_requested available.ids 0 rs []) in
      let cs = (find_references existing es rs []).1 in
      let empty : All IsEmpty cs =
        subst (All IsEmpty) (sym (contents-find_references existing rs es rs [] (λ j. refl)))
          (IsEmpty-to_send existing rs es) in
      lay_out-Contiguous_0 _ _ (sort_contents-IsEmpty b.disable_sorting cs empty) h

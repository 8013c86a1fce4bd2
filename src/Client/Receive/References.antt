-- ===== src/Client/Receive/References.antt =====
-- Where the client looks for the bytes of a file (util/receive/image.go), and what the proxy wrote
-- into the file (proxy/builder.go).
use starlight.Proxy.Bundle
use starlight.Prelude.{
  ℕ, zero, suc, ◌≡◌, refl, sym, ap, subst, ◌≢◌, ◌↔◌, ◌⊎◌, inl, inr, true, not, none, arith, ◌==◌,
  nat_comparable, text_comparable, if◌then◌else◌, Bool,
}
use starlight.Proxy.Delta.{set_payload, set_reference}
use starlight.Client.Receive.{
  ReferencedFile, is_referencing_requested_image, is_referencing_local_filesystem, in_payload,
}

-- The fields of a file that travel in the bundle; it waits for nothing yet.
abbrev pub received_file : Bundle.RankedFile → ReferencedFile
received_file r = record {
  stack = r.stack;
  reference_fs_id = r.reference_fs_id;
  reference_stack = r.reference_stack;
  payload_order = r.payload_order;
  ready = none;
}

-- For every file exactly one of the two answers is yes: its bytes are in a layer of the requested
-- image or in a local filesystem.
pub one_source :
    (r : ReferencedFile)
    → (is_referencing_requested_image r).1 ≡ not (is_referencing_local_filesystem r).1
unfolding is_referencing_requested_image is_referencing_local_filesystem
one_source r = ground arith

-- A file that the proxy refers to filesystem `id`, which is not 0, is looked for there.
found_locally :
    (id : ℕ) (r : Bundle.RankedFile)
    → id ≢ 0
    → is_referencing_local_filesystem (received_file (set_reference id r)) ≡ (id, true)
unfolding is_referencing_local_filesystem set_reference
found_locally id r h = ground arith

looked_for :
    (r : ReferencedFile) (stack : ℕ)
    → r.reference_fs_id ≡ 0
    → r.reference_stack ≡ stack
    → is_referencing_requested_image r ≡ (if stack == 0 then (r.stack, true) else (stack, true))
unfolding is_referencing_requested_image
looked_for r stack h e = ground arith

abbrev answer : ℕ → ℕ → ℕ × Bool
answer stack own = if stack == 0 then (own, true) else (stack, true)

abbrev yes : ℕ → ℕ × Bool
yes stack = (stack, true)

is_found : (stack own : ℕ) → (answer stack own ≡ yes stack) ↔ ((stack ≢ 0) ⊎ (own ≡ 0))
is_found zero own = (
  λ h. inr (ap (λ (p : ℕ × Bool). p.0) h),
  λ h. elim h [ inl n ↦ absurd (n refl) | inr e ↦ ap yes e ],
)
is_found (suc stack) own = (λ h. inl (omega arith), λ h. ground arith)

-- If a file has no reference to a filesystem and the proxy has put its bytes into content `k`, which
-- goes to layer `stack`, then the client looks for them in that layer exactly if the layer is not
-- layer 0 or the file itself is in layer 0, and takes the file to be in the payload exactly if `k`
-- is not 0.
pub found_in_payload :
    (stack k : ℕ) (r : Bundle.RankedFile)
    → r.reference_fs_id ≡ 0
    → ((is_referencing_requested_image (received_file (set_payload stack k r)) ≡ (stack, true))
        ↔ ((stack ≢ 0) ⊎ (r.stack ≡ 0)))
      × ((in_payload (received_file (set_payload stack k r)) ≡ true) ↔ (k ≢ 0))
unfolding in_payload set_payload
found_in_payload stack k r h = (
  subst (λ (p : ℕ × Bool). (p ≡ yes stack) ↔ ((stack ≢ 0) ⊎ (r.stack ≡ 0)))
      (sym (looked_for (received_file (set_payload stack k r)) stack h refl))
      (is_found stack r.stack),
  ground arith,
)

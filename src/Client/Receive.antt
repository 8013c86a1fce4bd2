-- ===== src/Client/Receive.antt =====
-- The delta bundle as the client reads it (util/receive/image.go).
pub mod References
use starlight.Prelude.{
  ℕ, String, Bool, true, false, not, Option, none, some, List, ltb, ◌==◌, nat_comparable,
  text_comparable, if◌then◌else◌,
}

pub record FileChunk : Type 0 where
  pub offset : ℕ
  pub chunk_offset : ℕ
  pub chunk_size : ℕ
  pub compressed_size : ℕ

-- `signal` is a channel: none while it is nil, and whether it is closed after.
pub record Content : Type 0 where
  pub signal : Option Bool
  pub stack : ℕ
  pub offset : ℕ
  pub size : ℕ
  pub chunks : List FileChunk
  pub digest : String

pub record ImageLayer : Type 0 where
  pub size : ℕ
  pub serial : ℕ
  pub hash : String
  pub local : String

-- `ready` is the content that the file waits for, none if the pointer is nil.
pub record ReferencedFile : Type 0 where
  pub stack : ℕ
  pub reference_fs_id : ℕ
  pub reference_stack : ℕ
  pub payload_order : ℕ
  pub ready : Option ℕ

pub is_referencing_requested_image : ReferencedFile → ℕ × Bool
is_referencing_requested_image r =
    if not (r.reference_fs_id == 0)
    then (0, false)
    else (if not (r.reference_stack == 0) then (r.reference_stack, true) else (r.stack, true))

pub is_referencing_local_filesystem : ReferencedFile → ℕ × Bool
is_referencing_local_filesystem r =
    if not (r.reference_fs_id == 0) then (r.reference_fs_id, true) else (0, false)

unfoldable pub in_payload : ReferencedFile → Bool
in_payload r = ltb 0 r.payload_order

unfoldable pub is_ready : ReferencedFile → Bool
is_ready r = elim r.ready [ none ↦ true | some _ ↦ false ]

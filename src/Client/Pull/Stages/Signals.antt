-- ===== src/Client/Pull/Stages/Signals.antt =====
-- What the daemon answers by the messages of a pull (`PullImage` of client/client.go and of
-- client/grpc.go).
use starlight.Prelude.{
  String, ◌≡◌, ◌⊎◌, Bool, true, false, some, List, [], ◌∷◌, nat_comparable, text_comparable,
}
use starlight.Client.Pull.{Metadata, Message, Outside, Stop, go, stop, quit, crash}
use starlight.Client.Pull.Stages.Whole.{pull_response, accepted, refused, answers, waits}
use starlight.Client.Pull.Stages.Sending.{Marked, Unmarked, not_extracted}

-- What was sent and what the daemon answers, by how the pull ended.
abbrev pub Answered : Outside → List Message → Stop (Unit {0}) → Type 0
Answered out l (go _) =
    Marked out
    × (note : Message) × (meta : Metadata) × (l ≡ note ∷ note ∷ [])
    × ((wait : Bool) → pull_response wait l ≡ answers (accepted note meta))
Answered out l quit =
    Unmarked out
    × (note : Message) × (meta : Metadata) × (l ≡ note ∷ [])
    × (pull_response false l ≡ answers (accepted note meta))
    × (pull_response true l ≡ waits)
Answered out l (stop m) =
    (e : String) × (m.err ≡ some e)
    × (((l ≡ m ∷ []) × ((wait : Bool) → pull_response wait l ≡ answers (refused m.img m e)))
        ⊎ ((e ≡ not_extracted)
            × (note : Message) × (meta : Metadata) × (l ≡ note ∷ m ∷ [])
            × (pull_response false l ≡ answers (accepted note meta))
            × (pull_response true l ≡ answers (refused false m e))))
Answered out l crash = Unit

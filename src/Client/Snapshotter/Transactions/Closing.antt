-- ===== src/Client/Snapshotter/Transactions/Closing.antt =====
-- Which transactions are ended (client/snapshotter/plugin.go).
use starlight.Prelude.{
  String, ◌≡◌, refl, inl, inr, false, Option, none, some, nat_comparable, text_comparable,
  Option-cases, lookup, Outcome, ok, error, panic, Error, ◌∷◌, [], ℕ, Bool, not, true, subst, List,
  ap, if◌then◌else◌, sym, ◌∙◌,
}
use starlight.Client.Mounting.{Info}
use starlight.Client.Snapshotter.{PluginClient}
use starlight.Client.Snapshotter.Transactions.{
  MetaStore, Files, Store, close_with, roll_back, committed, measured, usage_dir, commit_found,
  clear, left_over, remove_found, commit, new_snapshot, remove_snapshot, optioned, created,
  mount_created, prepared, leave, dirs, make_all,
}
use starlight.Client.Snapshotter.Mounts.{mounts}

-- Whether the transaction is over; a call that panics ends the daemon.
abbrev pub Ended : {D S A : Type 0} → Store D S × Outcome A → Type 0
Ended (w, ok _) = w.writing ≡ false
Ended (w, error _) = w.writing ≡ false
Ended (w, panic) = Unit

module _ {D S : Type 0} (ms : MetaStore D) (files : Files S) (plugin : PluginClient S) where
  Ended-close_with :
      {A : Type 0} (d : D) (a : A) (w : Store D S) → Ended (close_with ms files plugin d a w)
  unfolding close_with
  Ended-close_with d a w = elim (Option-cases (ms.commit d)) [
    | inl p ↦ rw (close_with, p) refl
    | inr (e, p) ↦ rw (close_with, p) refl
  ]

  Ended-committed : (r : Outcome D) (w : Store D S) → Ended (committed ms files plugin r w)
  unfolding committed roll_back
  Ended-committed (error e) w = refl
  Ended-committed panic w = tt
  Ended-committed (ok d) w = Ended-close_with d tt w

  Ended-measured :
      (name key : String) (o : Option String) (w : Store D S)
      → Ended (measured ms files plugin name key o w)
  unfolding measured roll_back
  Ended-measured name key (some e) w = refl
  Ended-measured name key none w = Ended-committed (ms.commit_active key name w.db) w

  Ended-commit_found :
      (layer_path : String → String) (namespace name key : String) (r : Outcome (String × Info))
      (w : Store D S)
      → Ended (commit_found ms files plugin layer_path namespace name key r w)
  unfolding commit_found roll_back
  Ended-commit_found layer_path namespace name key (error e) w = refl
  Ended-commit_found layer_path namespace name key panic w = tt
  Ended-commit_found layer_path namespace name key (ok (id, inf)) w =
      cases (files.apply_options inf) refl
    where
      cases :
          (o : Outcome Info)
          → files.apply_options inf ≡ o
          → Ended (commit_found ms files plugin layer_path namespace name key (ok (id, inf)) w)
      cases (error e) p = rw (commit_found, p) refl
      cases panic p = rw (commit_found, p) tt
      cases (ok inf') p =
          rw (commit_found, p)
            (Ended-measured name key
              (files.disk_usage (usage_dir ms files plugin layer_path namespace id inf')) w)

  -- After the transaction the clearing leaves the store alone.
  Ended-clear :
      (key id : String) (inf : Info) (w : Store D S)
      → w.writing ≡ false
      → ((clear ms files plugin key id inf w).0.writing ≡ false)
        × ((clear ms files plugin key id inf w).0.db ≡ w.db)
  unfolding clear
  Ended-clear key id inf w h =
      elim (Option-cases (lookup "containerd.io/snapshot/starlight.ref.uncompressed" inf.labels)) [
        | inl p ↦ rw (clear, p) (h, refl)
        | inr (und, p) ↦ rw (clear, p) (h, refl)
      ]

  Ended-outcome : {A : Type 0} (r : Store D S × Outcome A) → r.0.writing ≡ false → Ended r
  Ended-outcome (w, ok a) h = h
  Ended-outcome (w, error e) h = h
  Ended-outcome (w, panic) h = tt

  Ended-remove_found :
      (key : String) (r : Outcome (String × Info)) (w : Store D S)
      → Ended (remove_found ms files plugin key r w)
  unfolding remove_found roll_back
  Ended-remove_found key (error e) w = refl
  Ended-remove_found key panic w = tt
  Ended-remove_found key (ok (id, inf)) w =
      let d = left_over ms files plugin (ms.remove key w.db) w.db in
      elim (Option-cases (ms.commit d)) [
        | inl p ↦
            rw (remove_found, p)
              (Ended-outcome
                (clear ms files plugin key id inf (record w { db = d; writing = false }))
                (Ended-clear key id inf (record w { db = d; writing = false }) refl).0)
        | inr (e, p) ↦ rw (remove_found, p) refl
      ]

abbrev pub Answers : {D S A : Type 0} → Option (Store D S × Outcome A) → Type 0
Answers none = ⊥
Answers (some r) = Ended r

-- If no transaction is open, then committing a snapshot and removing one both come to an answer, and
-- however they end, unless they panic, their transaction is over.
pub commit-remove_snapshot :
    {D S : Type 0} (ms : MetaStore D) (files : Files S) (plugin : PluginClient S)
    (layer_path : String → String) (namespace name key : String) (w : Store D S)
    → w.writing ≡ false
    → Answers (commit ms files plugin layer_path namespace name key w)
      × Answers (remove_snapshot ms files plugin key w)
unfolding commit remove_snapshot
commit-remove_snapshot ms files plugin layer_path namespace name key w h =
    let c = commit_found ms files plugin layer_path namespace name key (ms.get_info w.db key) w in
    let r = remove_found ms files plugin key (ms.get_info w.db key) w in
    subst (λ b. Answers (if b then none else some c) × Answers (if b then none else some r)) (sym h)
      (
        Ended-commit_found ms files plugin layer_path namespace name key (ms.get_info w.db key) w,
        Ended-remove_found ms files plugin key (ms.get_info w.db key) w,
      )

make_all-none :
    {D S : Type 0} (ms : MetaStore D) (files : Files S) (plugin : PluginClient S)
    → ((dir : String) → files.mkdir_all dir ≡ none)
    → (ds : List String) → make_all ms files plugin ds ≡ none
unfolding make_all
make_all-none ms files plugin mk [] = refl
make_all-none ms files plugin mk (d ∷ ds) =
    rw (make_all, mk d) (make_all-none ms files plugin mk ds)

-- If a snapshot is prepared that the store accepts and whose directories can be made, but its mounts
-- fail with an error, then the error is answered with the transaction left open: every snapshot that
-- is prepared, committed or removed from then on waits for ever.
pub new_snapshot_stuck :
    {D S : Type 0} (ms : MetaStore D) (files : Files S) (plugin : PluginClient S) (fuel : ℕ)
    (namespace key parent id other : String) (readonly : Bool) (d : D) (start inf : Info) (s : S)
    (e : Error) (w : Store D S)
    → w.writing ≡ false
    → files.apply_options (record { name = ""; parent = ""; is_active = false; labels = [] })
      ≡ ok start
    → ms.create_snapshot (not readonly) key parent w.db ≡ ok (d, id)
    → ((dir : String) → files.mkdir_all dir ≡ none)
    → ms.get_info d key ≡ ok (other, inf)
    → mounts plugin namespace fuel (ms.get_info d) id inf w.client ≡ some (s, error e)
    → (v : Store D S) × (new_snapshot ms files plugin fuel namespace key parent readonly w
        ≡ some (v, error e))
      × ((next above : String) (ro : Bool)
          → new_snapshot ms files plugin fuel namespace next above ro v ≡ none)
      × ((layer_path : String → String) (name next : String)
          → commit ms files plugin layer_path namespace name next v ≡ none)
      × ((next : String) → remove_snapshot ms files plugin next v ≡ none)
unfolding new_snapshot commit remove_snapshot optioned created mount_created prepared leave dirs
    make_all
new_snapshot_stuck ms files plugin fuel namespace key parent id other readonly d start inf s e w h o
      c mk g m =
    let opts =
      files.apply_options (record { name = ""; parent = ""; is_active = false; labels = [] }) in
    let from : Outcome Info → Option _ =
      λ r. optioned ms files plugin fuel namespace key parent readonly r w in
    let made = make_all-none ms files plugin mk (dirs ms files plugin namespace id) in
    let step : created ms files plugin fuel namespace key (ok (d, id)) w
        ≡ mount_created ms files plugin fuel namespace id d (ms.get_info d key) w =
      rw (created, made) refl in
    (
      record w { client = s; writing = true },
      ap (λ b. if b then none else from opts) h
          ∙ ap from o
          ∙ ap (λ r. created ms files plugin fuel namespace key r w) c
          ∙ step
          ∙ ap (λ r. mount_created ms files plugin fuel namespace id d r w) g
          ∙ ap (prepared ms files plugin d w) m,
      λ next above ro. refl,
      λ layer_path name next. refl,
      λ next. refl,
    )

-- ===== src/Client/Mounting/Filesystems/Making.antt =====
-- The filesystem that `NewStarlightFS` makes for a layer (client/manager.go).
use starlight.Prelude.{
  ℕ, String, ◌≡◌, refl, ap, ◌∙◌, ◌≢◌, inl, inr, false, none, some, List, [], ◌∷◌, ◌++◌,
  nat_comparable, text_comparable, Option-cases, length, modify, Outcome, ok, error, panic,
}
use starlight.Client.Mounting.Filesystems.{
  mount_point_at, new_starlight_fs, tear_down, tear_down_old, serve, fs_at,
}
use starlight.Client.Mounting.{System, Client, Instance, hash_at}
use starlight.Client.Mounting.Serving.{
  Sound, shown, Serves-more, shown_new, Serves-write, Serves-modify, hash_at-modify,
}

mount_point_new :
    (fs : List Instance) (x : Instance)
    → mount_point_at (fs ++ x ∷ []) (length fs) ≡ ok x.mount_point
unfolding mount_point_at
mount_point_new [] x = refl
mount_point_new (y ∷ ys) x = mount_point_new ys x

-- The Unmount of a filesystem leaves what it was made for.
attempt : System → Instance → Instance
attempt sys x = elim (sys.unmount_server x.mount_point) [ none ↦ tear_down x | some _ ↦ x ]

attempt-manager : (sys : System) (x : Instance) → (attempt sys x).manager ≡ x.manager
unfolding attempt tear_down
attempt-manager sys x = elim (Option-cases (sys.unmount_server x.mount_point)) [
  | inl p ↦ rw (attempt, p) refl
  | inr (e, p) ↦ rw (attempt, p) refl
]

attempt-stack : (sys : System) (x : Instance) → (attempt sys x).stack ≡ x.stack
unfolding attempt tear_down
attempt-stack sys x = elim (Option-cases (sys.unmount_server x.mount_point)) [
  | inl p ↦ rw (attempt, p) refl
  | inr (e, p) ↦ rw (attempt, p) refl
]

-- Tearing down what was there changes neither map nor managers.
OldKept : System → ℕ → ℕ → Client → Client → Type 0
OldKept sys m stack c d = Sound d × (d.managers ≡ c.managers) × (d.layer_map ≡ c.layer_map)

tear_down_old_keeps :
    (sys : System) (m stack : ℕ) (c : Client)
    → Sound c
    → OldKept sys m stack c (tear_down_old sys m stack c)
unfolding OldKept tear_down_old attempt
tear_down_old_keeps sys m stack c h = elim (Option-cases (fs_at c.managers m stack)) [
  | inl p ↦ rw (tear_down_old, p) (h, refl, refl)
  | inr (f, p) ↦
      rw (tear_down_old, p)
        (
          Serves-write c.layer_map c.managers c.instances (attempt sys) (attempt-manager sys)
              (attempt-stack sys) f h,
          refl,
          refl,
        )
]

-- A filesystem that was made: it is of the layer at the stack, and at the directory.
abbrev pub Made : String → String → Client → Outcome ℕ → Client → Type 0
Made digest mnt d (ok f) c =
    (shown d.managers d.instances f ≡ some digest) × (mount_point_at d.instances f ≡ ok mnt)
Made digest mnt d (error _) c = Unit
Made digest mnt d panic c = Unit

module _ (sys : System) (m stack : ℕ) (mnt digest : String) (d : Client) where
  made : Client
  unfolding serve
  made = record d {
    managers = modify d.managers m (serve stack (length d.instances));
    instances =
        d.instances
        ++ record { mount_point = mnt; manager = m; stack = stack; torn_down = false } ∷ [];
  }

  Sound-made : Sound d → Sound made
  unfolding made serve
  Sound-made h =
      Serves-more d.layer_map (modify d.managers m (serve stack (length d.instances))) d.instances
        (record { mount_point = mnt; manager = m; stack = stack; torn_down = false } ∷ [])
        (Serves-modify d.layer_map d.managers d.instances (serve stack (length d.instances))
          (λ x. refl) m h)

  shown_made :
      hash_at d.managers m stack ≡ some digest → Made digest mnt made (ok (length d.instances)) d
  unfolding made serve
  shown_made e = (
    shown_new (modify d.managers m (serve stack (length d.instances))) d.instances
          (record { mount_point = mnt; manager = m; stack = stack; torn_down = false })
        ∙ hash_at-modify (serve stack (length d.instances)) (λ x. refl) d.managers m m stack
        ∙ e,
    mount_point_new d.instances
        (record { mount_point = mnt; manager = m; stack = stack; torn_down = false }),
  )

-- What `NewStarlightFS` makes, in all its branches.
pub Sound-new_starlight_fs :
    (sys : System) (m stack : ℕ) (mnt digest : String) (c : Client)
    → hash_at c.managers m stack ≡ some digest
    → Sound c
    → Sound (new_starlight_fs sys m mnt stack c).0
      × ((new_starlight_fs sys m mnt stack c).0.layer_map ≡ c.layer_map)
      × Made digest mnt
          (new_starlight_fs sys m mnt stack c).0
          (new_starlight_fs sys m mnt stack c).1
          c
unfolding new_starlight_fs OldKept made
Sound-new_starlight_fs sys m stack mnt digest c e h =
    let k = tear_down_old_keeps sys m stack c h in
    elim (Option-cases (sys.new_server mnt)) [
      | inl p ↦
          rw (new_starlight_fs, e, p)
            (
              Sound-made sys m stack mnt digest (tear_down_old sys m stack c) k.0,
              k.2,
              shown_made sys m stack mnt digest (tear_down_old sys m stack c)
                  (ap (λ ms. hash_at ms m stack) k.1 ∙ e),
            )
      | inr (err, p) ↦ rw (new_starlight_fs, e, p) (k.0, k.2, tt)
    ]

pub new_starlight_fs-panic :
    (sys : System) (m stack : ℕ) (mnt digest : String) (c : Client)
    → hash_at c.managers m stack ≡ some digest
    → (new_starlight_fs sys m mnt stack c).1 ≢ panic
unfolding new_starlight_fs
new_starlight_fs-panic sys m stack mnt digest c e = elim (Option-cases (sys.new_server mnt)) [
  | inl p ↦ rw (new_starlight_fs, e, p) (λ q. cc)
  | inr (err, p) ↦ rw (new_starlight_fs, e, p) (λ q. cc)
]

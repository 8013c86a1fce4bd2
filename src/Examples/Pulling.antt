-- ===== src/Examples/Pulling.antt =====
-- A pull of an image of one layer without files, whose body is six bytes (client/client.go,
-- client/grpc.go).
use starlight.Prelude.{
  ◌≡◌, refl, true, false, none, some, [], ◌∷◌, nat_comparable, text_comparable, ok, lookup, insert,
  remove,
}
use starlight.Examples.Mounting.{willing, one_image, one_layer}
use starlight.Client.Extract.{Os}
use starlight.Client.Mounting.{new_client}
use starlight.Client.Pull.{
  Metadata, World, Outside, read_body, write_blob, release, send, with_client,
}
use starlight.Client.Pull.Stages.{Setting, receive, drop_cached, add_star, optimize, prepare}
use starlight.Client.Pull.Stages.Whole.{pull_image, worked, overlapped, locked}
use starlight.Client.Pull.Stages.Released.{pull_image-Free, locked_overtaken, overtake}
use starlight.Client.Setup.{init, prepare_directories}
use starlight.Client.Mounting.Pulling.{register}
use starlight.Client.Mounting.Loading.{add_manager}

abbrev all_willing : Os
all_willing = record { mkdir_all = λ _ _. true; create = λ _ _. true; write_file = λ _ _. true }

abbrev calm : Setting
calm = record {
  sys = willing;
  store = one_image;
  os = all_willing;
  gunzip = λ bytes. some bytes;
  add = λ _ _ _ _ _ c. (c, none);
  others = λ c. (c, false);
  root = "/var";
}

abbrev sizes : Metadata
sizes = record {
  manifest_size = 1;
  config_size = 2;
  starlight_header_size = 3;
  content_length = 0;
  original_length = 0;
  digest = "sha256:image";
  starlight_digest = "sha256:header";
}

abbrev proxy : Outside
proxy = record {
  find_image = ok none;
  delete_image = none;
  delta_image = ok (sizes, 1 ∷ 2 ∷ 2 ∷ 3 ∷ 3 ∷ 3 ∷ []);
  read_manifest = λ bytes. ok ("sha256:config", 6 ∷ [], bytes);
  read_config = λ bytes. ok ("sha256:chain" ∷ [], bytes);
  read_header = λ bytes. ok (one_layer, bytes);
  write_blob = λ _. none;
  create_image = none;
  update_image = some "not found";
  update_manifest = none;
}

abbrev before_pull : World
before_pull = record {
  client = new_client;
  held = false;
  faults = 0;
  body = [];
  blobs = [];
  disk = [];
  completed = false;
  sent = [];
}

pull_image-Free_example :
    ((pull_image calm proxy "" before_pull).0.held ≡ false)
    × ((pull_image calm proxy "" before_pull).0.faults ≡ 0)
pull_image-Free_example =
    pull_image-Free calm proxy "" before_pull refl (λ manifest chain prev layer idx c i h. (i, h))
      (λ manifest c i h. (refl, i, h))

abbrev full_disk : Os
full_disk = record { mkdir_all = λ _ _. false; create = λ _ _. true; write_file = λ _ _. true }

abbrev cramped : Setting
cramped = record calm { os = full_disk }

abbrev answered_pull : World
answered_pull = record before_pull { body = 1 ∷ 2 ∷ 2 ∷ 3 ∷ 3 ∷ 3 ∷ [] }

abbrev twice : Setting
twice = record cramped { others = overtake calm proxy "sha256:image" before_pull }

locked_overtaken_example :
    ((overlapped twice proxy (worked twice proxy "" sizes answered_pull)).0.held ≡ true)
    × ((locked twice proxy "" sizes answered_pull).0.held ≡ false)
    × ((locked twice proxy "" sizes answered_pull).0.faults
        ≡ (worked twice proxy "" sizes answered_pull).0.faults)
unfolding worked read_body write_blob release send with_client receive drop_cached add_star optimize
    prepare init lookup insert remove register add_manager prepare_directories
locked_overtaken_example =
    locked_overtaken cramped calm proxy proxy "" sizes answered_pull before_pull refl refl

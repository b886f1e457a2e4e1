-- ===== src/Driver/Testing.antt =====
-- `NewTestDriver`, over a world that holds the fake disk plugger.
use civo_csi.Base.{true, false, inl, inr, Option, none, some}
use civo_csi.Action.{Action, ok, panic, ◌>>=◌, attempt}
use civo_csi.Api.{Clienter}
use civo_csi.Disk.{DiskHotPlugger}
use civo_csi.Disk.Fake.{FakeDisk, fake_disk}
use civo_csi.Disk.Real.{System}
use civo_csi.Driver.{Driver}
use civo_csi.Driver.New.{ClientLibrary, new_driver}
use civo_csi.Host.{Host}

-- An action on the first half of a world
abbrev pub on_first : {A V R : Type 0} → (A → R × A) → A × V → R × (A × V)
on_first f (a, v) = let (r, a') = f a in (r, (a', v))

-- `&FakeDiskHotPlugger{}`
abbrev pub new_fake : FakeDisk
new_fake = record {
  disk_attachment_missing = false;
  filesystem = "";
  formatted = false;
  format_called = false;
  expand_called = false;
  device = "";
  mountpoint = "";
  mounted = false;
  mount_called = false;
}

module _ {V : Type 0} where
  abbrev pub shared_fake : DiskHotPlugger (FakeDisk × V)
  shared_fake = record {
    path_for_volume = λ id. on_first (fake_disk.path_for_volume id);
    format = λ path fs. on_first (fake_disk.format path fs);
    expand_filesystem = λ path. on_first (fake_disk.expand_filesystem path);
    mount = λ path target fs flags. on_first (fake_disk.mount path target fs flags);
    unmount = λ target. on_first (fake_disk.unmount target);
    is_formatted = λ path. on_first (fake_disk.is_formatted path);
    is_mounted = λ target. on_first (fake_disk.is_mounted target);
    get_statistics = λ path. on_first (fake_disk.get_statistics path);
  }

  -- `NewFakeClient`, whose error is dropped, is a parameter. After an error of NewDriver a nil
  -- driver is written to.
  unfoldable pub new_test_driver :
      Host (FakeDisk × V)
      → System (FakeDisk × V)
      → ClientLibrary (FakeDisk × V)
      → Clienter (FakeDisk × V)
      → Option (Clienter (FakeDisk × V))
      → Action (FakeDisk × V) (Driver (FakeDisk × V))
  new_test_driver host sys lib new_fake_client fc = do
    made ← attempt (
        new_driver host sys lib "https://civo-api.example.com" "NO_API_KEY_NEEDED" "TEST1" "default"
          "12345678")
    elim made [
      | inr _ ↦ λ w. (panic, w)
      | inl d ↦ λ (_, v). (
        ok (record d {
          socket_filename = "unix:///tmp/civo-csi.sock";
          civo_client = elim fc [ none ↦ new_fake_client | some c ↦ c ];
          disk_hot_plugger = shared_fake;
          test_mode = true;
          cluster_volume_type = "standard";
        }),
        (new_fake, v),
      )
    ]

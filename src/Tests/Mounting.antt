-- ===== src/Tests/Mounting.antt =====
-- Mounting at /mnt by a user who may not unmount, so that the library has to.
use fuse_rs.Base.{ℕ, pos, negsuc, ◌≡◌, refl, ap, List, [], ◌∷◌, none, some, eq_ℤ}
use fuse_rs.Base.Result.{ok}
use fuse_rs.Os.{Os, History, canonicalize, fuse_mount, close}
use fuse_rs.Channel.{Channel}
use fuse_rs.Channel.Mount
use fuse_rs.Channel.Mount.{unmount, drop, with_fuse_args, fuse_rs_name}
use fuse_rs.Ll.Argument.{position}
use fuse_rs.Channel.Mount.Args.{mount_args}
use fuse_rs.Channel.Mount.Laws.{
  Unmounts, unmount-Unmounts, Opens, new-Opens, IsUnmounting, new-drop,
}
use fuse_rs.Session.Loop.{run, started}
use fuse_rs.Session
use fuse_rs.Session.{session_of}
use fuse_rs.Session.Loop.Sender.{IsOnChannel, run-IsOnChannel}
use fuse_rs.Session.Mount.{mount, with_session}
use fuse_rs.Session.Mount.Descriptors.{open_descriptors, Holds, HoldsMounted, mount-HoldsMounted}
use fuse_rs.Session.Background.{
  Background, nothing, «then», drops, serving, new, spawn, spawn_mount,
}
use fuse_rs.Session.Background.Laws.{HoldsThread, spawn_mount-HoldsThread}
use fuse_rs.Tests.{linux, no_files}
use fuse_rs.Tests.Sessions.{fresh, reads}

abbrev pub user : Os
user = record {
  canonicalized = λ h path. ok path;
  mounted = λ h path args. pos 7;
  written = λ h fd slices. pos 16;
  unmounted = λ h path. negsuc 0;
  last_os_error = λ h. pos 1;
  is_permission_denied = λ errno. eq_ℤ errno (pos 1);
}

-- "/mnt" and "-o", "ro"
abbrev pub mnt : List ℕ
mnt = 47 ∷ 109 ∷ 110 ∷ 116 ∷ []

abbrev pub options : List (List ℕ)
options = (45 ∷ 111 ∷ []) ∷ (114 ∷ 111 ∷ []) ∷ []

-- The test `fuse_args` of src/channel.rs, with "foo" and "bar".
fuse_args_test :
    with_fuse_args ((102 ∷ 111 ∷ 111 ∷ []) ∷ (98 ∷ 97 ∷ 114 ∷ []) ∷ []) (λ args. args)
    ≡ some (record {
      argc = pos 3;
      argv =
          (102 ∷ 117 ∷ 115 ∷ 101 ∷ 45 ∷ 114 ∷ 115 ∷ 0 ∷ [])
          ∷ (102 ∷ 111 ∷ 111 ∷ 0 ∷ [])
          ∷ (98 ∷ 97 ∷ 114 ∷ 0 ∷ [])
          ∷ [];
      allocated = pos 0;
    })
unfolding with_fuse_args Mount.c_strings Mount.c_string position
fuse_args_test = refl

unmount-Unmounts_example : Unmounts user mnt [] (unmount user mnt [])
unmount-Unmounts_example = unmount-Unmounts user mnt []

new-Opens_example : Opens user mnt options [] (Mount.new user mnt options [])
new-Opens_example = new-Opens user mnt options []

abbrev mounted_channel : Channel
mounted_channel = record { mountpoint = mnt; fd = pos 7 }

new_at_mnt : (Mount.new user mnt options []).0 ≡ some (ok mounted_channel)
unfolding Mount.new with_fuse_args Mount.c_strings Mount.c_string position Mount.open_at
new_at_mnt = refl

new-drop_example :
    (real : List ℕ) × ((Mount.new user mnt options []).1
      ≡ fuse_mount real (mount_args options) ∷ canonicalize mnt ∷ [])
    × IsUnmounting user real (close (pos 7) ∷ []) (drop user mounted_channel []).1
new-drop_example = new-drop user mnt options [] [] mounted_channel new_at_mnt

run-IsOnChannel_example :
    IsOnChannel linux no_files fresh
      (run linux no_files fresh reads).session
      (run linux no_files fresh reads).sent
run-IsOnChannel_example = run-IsOnChannel linux no_files fresh reads

nothing_open : Holds user [] []
unfolding open_descriptors
nothing_open = refl

mount-HoldsMounted_example :
    HoldsMounted user [] (mount user linux no_files [] 0 mnt options reads [])
mount-HoldsMounted_example =
    mount-HoldsMounted user linux no_files [] 0 mnt options reads [] [] nothing_open

abbrev background : Background ℕ
background = (serving (started linux no_files (session_of 0 mounted_channel)), some mnt)

spawn_at_mnt : (spawn_mount user linux no_files 0 mnt options []).0 ≡ some (ok background)
unfolding spawn_mount Session.Mount.new new session_of
spawn_at_mnt = ap (λ r. spawn user linux no_files (with_session user 0 r)) new_at_mnt

-- The calls of mounting, and then of dropping the handle.
abbrev spawn_history : History
spawn_history = (spawn_mount user linux no_files 0 mnt options []).1

spawn_mount-HoldsThread_example :
    HoldsThread user linux no_files [] [] ((background.0, none), (unmount user mnt spawn_history).1)
spawn_mount-HoldsThread_example =
    spawn_mount-HoldsThread user linux no_files [] 0 mnt options [] [] background []
      ((background.0, none), (unmount user mnt spawn_history).1) nothing_open spawn_at_mnt
      («then» drops nothing)

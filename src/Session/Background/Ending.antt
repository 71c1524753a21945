-- ===== src/Session/Background/Ending.antt =====
-- `BackgroundSession` of src/session.rs: the thread finishes.
use fuse_rs.Base.{ℕ, Bool, ◌≡◌, ◌≢◌, refl, ap, List, [], ◌∷◌, ◌++◌, Option, none, some}
use mathlib.Core.Path.{subst}
use fuse_rs.Platform.{Libc}
use fuse_rs.Os.{Os, History}
use fuse_rs.Channel.{Read}
use fuse_rs.Channel.Mount.{unmount}
use fuse_rs.Filesystem.{Filesystem}
use fuse_rs.Session.{Session}
use fuse_rs.Session.Loop.{Run, Round, waiting, again, stop, advance, round, run_from, run}
use fuse_rs.Session.Background.{
  Thread, serving, closing, finished, Background, Step, goes_on, leaves, unmounts, drops, Steps,
  nothing, «then», new,
}
use fuse_rs.Session.Background.Laws.{run_more, Steps-run_more}

module _ (os : Os) (c : Libc) {S : Type 0} (fs : Filesystem S) (held : List Bool) where
  -- Some of the reads take the thread to its end, where its handle has been dropped.
  abbrev pub Finishes : Background S × History → List Read → Type 0
  Finishes s rs =
      (taken : List Read) × (rest : List Read) × (rs ≡ taken ++ rest)
      × (m : Run S) × (h : History) × Steps os c fs held taken s ((finished m, none), h)

  Finishes-Step :
      (r : Read) (rs : List Read) (s s' : Background S × History)
      → Step os c fs held (r ∷ []) s s'
      → Finishes s' rs
      → Finishes s (r ∷ rs)
  Finishes-Step r rs s s' step (taken, rest, split, m, h, steps) =
      (r ∷ taken, rest, ap (◌∷◌ r) split, m, h, «then» step steps)

  -- The last steps: what is left of the thread, and of the handle.
  drops-Finishes :
      (m : Run S) (handle : Option (List ℕ)) (h : History) (rs : List Read)
      → Finishes ((finished m, handle), h) rs
  drops-Finishes m none h rs = ([], rs, refl, m, h, nothing)
  drops-Finishes m (some path) h rs = ([], rs, refl, m, _, «then» drops nothing)

  closing-Finishes :
      (m : Run S) (handle : Option (List ℕ)) (h : History) (rs : List Read)
      → Finishes ((closing m, handle), h) rs
  closing-Finishes m handle h rs =
      let (taken, rest, split, m', h', steps) =
        drops-Finishes m handle (unmount os m.session.ch.mountpoint h).1 rs in
      (taken, rest, split, m', h', «then» unmounts steps)

  run_from-round :
      (r : Read) (rs : List Read) (m : Run S) (handle : Option (List ℕ)) (h : History) (x : Round S)
      → round c fs m.session r ≡ x
      → (run_from c fs m (r ∷ rs)).ended ≢ waiting
      → ((m' : Run S) (h' : History)
          → m'.ended ≡ waiting
          → (run_from c fs m' rs).ended ≢ waiting
          → Finishes ((serving m', handle), h') rs)
      → Finishes ((serving m, handle), h) (r ∷ rs)
  unfolding run_from
  run_from-round r rs m handle h (again se kept sent) e ends rec =
      Finishes-Step r rs _ _ (goes_on r se kept sent e)
        (rec (advance m se kept sent) _ refl (λ w. ends (rw (run_from, e) w)))
  run_from-round r rs m handle h (stop end sent) e ends rec =
      Finishes-Step r rs _ _ (leaves r end sent e) (closing-Finishes _ handle _ rs)

  run_from-Finishes :
      (rs : List Read) (m : Run S) (handle : Option (List ℕ)) (h : History)
      → m.ended ≡ waiting
      → (run_from c fs m rs).ended ≢ waiting
      → Finishes ((serving m, handle), h) rs
  unfolding run_from
  run_from-Finishes [] m handle h w ends = absurd (ends w)
  run_from-Finishes (r ∷ rs) m handle h w ends =
      run_from-round r rs m handle h (round c fs m.session r) refl ends
        (λ m' h' w' ends'. run_from-Finishes rs m' handle h' w' ends')

  -- A thread that serves has not come to an end.
  abbrev IsConsistent : Background S × History → Type 0
  IsConsistent ((serving m, _), h) = m.ended ≡ waiting
  IsConsistent _ = Unit {0}

  drops-IsConsistent :
      (t : Thread S) (path : List ℕ) (h h' : History)
      → IsConsistent ((t, some path), h)
      → IsConsistent ((t, none), h')
  drops-IsConsistent (serving m) path h h' w = w
  drops-IsConsistent (closing m) path h h' w = tt
  drops-IsConsistent (finished m) path h h' w = tt

  Steps-IsConsistent :
      (rs : List Read) (s s' : Background S × History)
      → Steps os c fs held rs s s'
      → IsConsistent s
      → IsConsistent s'
  Steps-IsConsistent _ _ _ nothing w = w
  Steps-IsConsistent _ _ _ («then» (goes_on r se kept sent e) steps) w =
      Steps-IsConsistent _ _ _ steps refl
  Steps-IsConsistent _ _ _ («then» (leaves r end sent e) steps) w =
      Steps-IsConsistent _ _ _ steps tt
  Steps-IsConsistent _ _ _ («then» unmounts steps) w = Steps-IsConsistent _ _ _ steps tt
  Steps-IsConsistent _ _ _ («then» (drops {t = t} {mountpoint = path} {h = h}) steps) w =
      Steps-IsConsistent _ _ _ steps (drops-IsConsistent t path h _ w)

  state-Finishes :
      (s : Background S × History) (rs : List Read)
      → IsConsistent s
      → (run_more os c fs held s.0.0 rs).ended ≢ waiting
      → Finishes s rs
  state-Finishes ((serving m, handle), h) rs w ends = run_from-Finishes rs m handle h w ends
  state-Finishes ((closing m, handle), h) rs w ends = closing-Finishes m handle h rs
  state-Finishes ((finished m, handle), h) rs w ends = drops-Finishes m handle h rs

  -- From wherever the steps of a background session have led it, further steps take its thread to
  -- its end and its handle to be dropped, on some of the reads that follow, if the run of the
  -- session on the reads so far and these comes to an end.
  pub Steps-Finishes :
      (se : Session S) (h : History) (rs more : List Read) (s : Background S × History)
      → Steps os c fs held rs (new os c fs se, h) s
      → (run c fs se (rs ++ more)).ended ≢ waiting
      → Finishes s more
  unfolding new run
  Steps-Finishes se h rs more s steps ends =
      state-Finishes s more (Steps-IsConsistent rs _ s steps refl) (
        subst (λ (m : Run S). m.ended ≢ waiting) (Steps-run_more os c fs held rs more _ s steps)
          ends)

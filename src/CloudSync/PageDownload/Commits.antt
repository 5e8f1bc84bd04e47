-- ===== src/CloudSync/PageDownload/Commits.antt =====
-- The remote commits that bin/ledger/cloud_sync/impl/page_download.cc still has to download, in order.
use Prim.Native.String.{String}
use mathlib.Core.List.{append_assoc, append-nil}
use peridot.Base.{
  ℕ, zero, suc, put_back-eq-some, ◌≡◌, refl, ap, sym, ◌∙◌, Bool, true, some, List, [], ◌∷◌, ◌++◌,
  arith, total, pick, Bool-cases, inl, inr,
}
use peridot.CloudSync.PageDownload.{
  PageDownload, Pending, batch, OnDone, acknowledge, Reply, on_new_commits, resume,
}
use peridot.CloudSync.PageDownload.Invariant.{batches}
use peridot.CloudSync.PageDownload.Schedule.{Reach, Reach-Inv, Inv-pick}

-- The commits of the batches in flight.
abbrev pub in_flight : List Pending → List ℕ
in_flight [] = []
in_flight (batch commits token on_done ∷ rest) = commits ++ in_flight rest
in_flight (_ ∷ rest) = in_flight rest

-- The commits in flight, then those that wait.
abbrev pub ahead : PageDownload → List ℕ
ahead d = in_flight d.pending ++ d.commits_to_download

pub in_flight-none : (ps : List Pending) → total batches ps ≡ 0 → in_flight ps ≡ []
in_flight-none [] h = refl
in_flight-none (batch c t o ∷ ps) h = absurd (omega arith)
in_flight-none (p ∷ ps) h = in_flight-none ps (omega arith)

in_flight-pick :
    (i : ℕ) (ps : List Pending) (commits : List ℕ) (token : String) (on_done : OnDone)
    (rest : List Pending)
    → pick i ps ≡ some (batch commits token on_done, rest)
    → total batches rest ≡ 0
    → in_flight ps ≡ commits
unfolding pick
in_flight-pick i [] c t o rest h z = ground arith
in_flight-pick zero (p ∷ ps) c t o rest h z = ground (arith, in_flight-none ps, append-nil c)
in_flight-pick (suc i) (p ∷ ps) c t o rest h z =
    let (r, e, k) = put_back-eq-some p (pick i ps) h in
    skip p ps c (in_flight-pick i ps c t o r e (ground arith)) (ground arith)
  where
    skip :
        (p : Pending) (ps : List Pending) (c : List ℕ)
        → in_flight ps ≡ c
        → batches p ≡ 0
        → in_flight (p ∷ ps) ≡ c
    skip (batch c' t' o') ps c e z = absurd (omega arith)
    skip p ps c e z = e

ahead-eq :
    (d : PageDownload) (ps : List Pending) (cs : List ℕ)
    → d.pending ≡ ps
    → d.commits_to_download ≡ cs
    → ahead d ≡ in_flight ps ++ cs
ahead-eq d ps cs e h = cc

-- A notification puts its commits behind all that is still ahead.
pub on_new_commits-ahead :
    {f : Bool} {d e : PageDownload} (commits : List ℕ) (token : String)
    → Reach f d
    → on_new_commits commits token d ≡ some e
    → ahead e ≡ ahead d ++ commits
unfolding on_new_commits
on_new_commits-ahead {f} {d} {e} commits token q h =
    let v = Reach-Inv q in
    elim (Bool-cases d.batch_download) [
      | inl has ↦
          ahead-eq e d.pending (d.commits_to_download ++ commits) (ground arith) (ground arith)
          ∙ sym (append_assoc (in_flight d.pending) d.commits_to_download commits)
      | inr not_yet ↦
          ahead-eq e (batch commits token acknowledge ∷ d.pending) [] (ground arith) (ground arith)
          ∙ ground (arith, in_flight-none d.pending, append-nil commits)
    ]

ahead-resume :
    (queue : List ℕ) (d : PageDownload) {e : PageDownload} (r : Reply) (commits : List ℕ)
    (token : String) (on_done : OnDone)
    → d.commits_to_download ≡ queue
    → total batches d.pending ≡ 0
    → r.success ≡ true
    → resume (batch commits token on_done) r d ≡ some e
    → ahead e ≡ queue
unfolding resume
ahead-resume [] d r commits token on_done h z k g = ground (arith, in_flight-none d.pending)
ahead-resume (c ∷ cs) d r commits token on_done h z k g =
    ground (arith, in_flight-none d.pending, append-nil (c ∷ cs))

-- When a batch has been downloaded, what was ahead is that batch, and then what is ahead now.
pub batch-ahead :
    {f : Bool} {d e : PageDownload} (i : ℕ) (r : Reply) (commits : List ℕ) (token : String)
    (on_done : OnDone) (rest : List Pending)
    → Reach f d
    → pick i d.pending ≡ some (batch commits token on_done, rest)
    → r.success ≡ true
    → resume (batch commits token on_done) r (record d { pending = rest }) ≡ some e
    → ahead d ≡ commits ++ ahead e
batch-ahead {f} {d} {e} i r commits token on_done rest q h k g =
    let v = Inv-pick i f d (batch commits token on_done) rest h (Reach-Inv q) in
    let z : total batches rest ≡ 0 = ground arith in
    ahead-eq d d.pending d.commits_to_download refl refl
    ∙ ap (λ l. l ++ d.commits_to_download)
        (in_flight-pick i d.pending commits token on_done rest h z)
    ∙ ap (◌++◌ commits) (
        sym (
          ahead-resume d.commits_to_download (record d { pending = rest }) r commits token on_done
            refl z k g))

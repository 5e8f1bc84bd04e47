-- ===== src/CloudSync/PageDownload/Order.antt =====
-- In which order bin/ledger/cloud_sync/impl/page_download.cc downloads the remote commits, over a whole
-- schedule of calls and replies.
use Prim.Native.String.{String}
use mathlib.Core.List.{append_assoc, append-nil}
use peridot.Base.{
  ℕ, zero, suc, put_back-eq-some, ◌≡◌, refl, ap, sym, ◌∙◌, Bool, true, false, some, List, [], ◌∷◌,
  ◌++◌, arith, pick, Bool-cases, inl, inr, if◌then◌else◌, is_empty,
}
use peridot.CloudSync.PageDownload.{
  PageDownload, Pending, get_backlog_metadata, get_commits, batch, get_watcher_metadata,
  set_watcher, retry_start, retry_watcher, retry_object, get_object_name, get_object_data,
  read_data, decrypt_object, Reply, CloudStatus, is_ok, create, send, start_download, on_error,
  get_object, resume,
}
use peridot.CloudSync.PageDownload.Invariant.{Inv, batches, fails}
use peridot.CloudSync.PageDownload.Schedule.{
  Reach, started, new_commits, watcher_error, object_wanted, reply, Reach-Inv, Inv-pick,
}
use peridot.CloudSync.PageDownload.Commits.{
  in_flight, ahead, in_flight-none, on_new_commits-ahead, batch-ahead,
}

-- The commits that a reply tells of: those of the backlog.
abbrev pub told_by : Pending → Reply → List ℕ
told_by (get_commits token) r = if is_ok r.cloud_status then r.commits else []
told_by _ r = []

-- The commits that a reply says have been downloaded.
abbrev pub downloaded_by : Pending → Reply → List ℕ
downloaded_by (batch commits token on_done) r = if r.success then commits else []
downloaded_by _ r = []

-- All the commits that the cloud has told of, in its order.
abbrev pub told_in : {f : Bool} {d : PageDownload} → Reach f d → List ℕ
told_in (started e) = []
told_in (new_commits commits token q w e) = told_in q ++ commits
told_in (watcher_error status q w e) = told_in q
told_in (object_wanted oid q e) = told_in q
told_in (reply i r p rest q h g e) = told_in q ++ told_by p r

-- All the commits that have been downloaded, in the order in which they were.
abbrev pub downloaded_in : {f : Bool} {d : PageDownload} → Reach f d → List ℕ
downloaded_in (started e) = []
downloaded_in (new_commits commits token q w e) = downloaded_in q
downloaded_in (watcher_error status q w e) = downloaded_in q
downloaded_in (object_wanted oid q e) = downloaded_in q
downloaded_in (reply i r p rest q h g e) = downloaded_in q ++ downloaded_by p r

in_flight-pick_other :
    (i : ℕ) (ps : List Pending) (p : Pending) (rest : List Pending)
    → pick i ps ≡ some (p, rest)
    → batches p ≡ 0
    → in_flight ps ≡ in_flight rest
unfolding pick
in_flight-pick_other i [] p rest h z = ground arith
in_flight-pick_other zero (batch c t o ∷ ps) p rest h z = absurd (ground arith)
in_flight-pick_other zero (get_backlog_metadata ∷ ps) p rest h z = ground arith
in_flight-pick_other zero (x ∷ ps) p rest h z = ground arith
in_flight-pick_other (suc i) (x ∷ ps) p rest h z =
    let (r, e, k) = put_back-eq-some x (pick i ps) h in
    skip x ps r (in_flight-pick_other i ps p r e z) ∙ sym (ap in_flight k)
  where
    skip :
        (x : Pending) (ps r : List Pending)
        → in_flight ps ≡ in_flight r
        → in_flight (x ∷ ps) ≡ in_flight (x ∷ r)
    skip (batch c t o) ps r e = ap (λ l. c ++ l) e
    skip get_backlog_metadata ps r e = e
    skip x ps r e = e

-- The queue and the batches in flight stay.
Stays : PageDownload → PageDownload → Type 0
Stays d e =
    (e.commits_to_download ≡ d.commits_to_download) × (in_flight e.pending ≡ in_flight d.pending)

Stays-resume :
    (p : Pending) (r : Reply) (d e : PageDownload)
    → resume p r d ≡ some e
    → batches p ≡ 0
    → told_by p r ≡ []
    → Stays d e
unfolding resume Stays
Stays-resume get_backlog_metadata r d e h b t = ground arith
Stays-resume (get_commits token) r d e h b t = ground arith
Stays-resume (batch c t o) r d e h b t' = absurd (omega arith)
Stays-resume (get_watcher_metadata is_retry) r d e h b t = ground arith
Stays-resume (set_watcher token) r d e h b t = ground arith
Stays-resume retry_start r d e h b t = ground arith
Stays-resume retry_watcher r d e h b t = ground arith
Stays-resume (retry_object oid) r d e h b t = ground arith
Stays-resume (get_object_name oid) r d e h b t = ground arith
Stays-resume (get_object_data oid) r d e h b t = ground arith
Stays-resume (read_data oid) r d e h b t = ground arith
Stays-resume (decrypt_object oid) r d e h b t = ground arith

-- Where no batch ends and the reply tells of no commits, what is ahead stays.
reply-ahead_other :
    (d e : PageDownload) (i : ℕ) (r : Reply) (p : Pending) (rest : List Pending)
    → pick i d.pending ≡ some (p, rest)
    → resume p r (record d { pending = rest }) ≡ some e
    → batches p ≡ 0
    → told_by p r ≡ []
    → downloaded_by p r ≡ []
    → ahead d ++ told_by p r ≡ downloaded_by p r ++ ahead e
unfolding Stays
reply-ahead_other d e i r p rest h g b t u =
    let (c, f) = Stays-resume p r (record d { pending = rest }) e g b t in
    let k = in_flight-pick_other i d.pending p rest h b in rw (t, u, append-nil (ahead d)) cc

-- The backlog is known: it is downloaded as one batch.
backlog-ahead :
    {f : Bool} {d e : PageDownload} (r : Reply) (token : String)
    → Inv f (send (get_commits token) d)
    → is_ok r.cloud_status ≡ true
    → is_empty r.commits ≡ false
    → resume (get_commits token) r d ≡ some e
    → (ahead d ≡ []) × (ahead e ≡ r.commits)
unfolding resume
backlog-ahead {d} {e} r token v k c g =
    let queue : d.commits_to_download ≡ [] = ground (arith, v.start) in
    let none : in_flight d.pending ≡ [] = ground (arith, in_flight-none d.pending, v.start) in
    let q : e.commits_to_download ≡ [] = ground arith in
    let b : in_flight e.pending ≡ r.commits =
      ground (arith, in_flight-none d.pending, append-nil r.commits) in
    (rw (queue, none) refl, rw (q, b) (append-nil r.commits))

is_empty-nil : (xs : List ℕ) → is_empty xs ≡ true → xs ≡ []
is_empty-nil [] h = refl
is_empty-nil (x ∷ xs) h = ground arith

reply-ahead :
    {f : Bool} (d e : PageDownload) (i : ℕ) (r : Reply) (p : Pending) (rest : List Pending)
    → Reach f d
    → pick i d.pending ≡ some (p, rest)
    → fails p r ≡ false
    → resume p r (record d { pending = rest }) ≡ some e
    → ahead d ++ told_by p r ≡ downloaded_by p r ++ ahead e
reply-ahead {f} d e i r (batch commits token on_done) rest q h x g =
    let s : r.success ≡ true = ground arith in
    rw s (append-nil (ahead d) ∙ batch-ahead i r commits token on_done rest q h s g)
reply-ahead {f} d e i r (get_commits token) rest q h x g =
    let v = Inv-pick i f d (get_commits token) rest h (Reach-Inv q) in
    elim (Bool-cases (is_ok r.cloud_status)) [
      | inl k ↦ elim (Bool-cases (is_empty r.commits)) [
        | inl empty ↦
            reply-ahead_other d e i r (get_commits token) rest h g refl
              (rw k (is_empty-nil r.commits empty)) refl
        | inr more ↦
            let (a, b) = backlog-ahead r token v k more g in
            let same = in_flight-pick_other i d.pending (get_commits token) rest h refl in
            rw k (
              ap (λ l. (l ++ d.commits_to_download) ++ r.commits) same
              ∙ ap (λ l. l ++ r.commits) a
              ∙ sym b)
      ]
      | inr bad ↦ reply-ahead_other d e i r (get_commits token) rest h g refl (rw bad refl) refl
    ]
reply-ahead d e i r get_backlog_metadata rest q h x g =
    reply-ahead_other d e i r get_backlog_metadata rest h g refl refl refl
reply-ahead d e i r p rest q h x g = reply-ahead_other d e i r p rest h g refl refl refl

on_error-Stays :
    (status : CloudStatus) (d e : PageDownload) → on_error status d ≡ some e → Stays d e
unfolding on_error Stays
on_error-Stays status d e h = ground arith

get_object-Stays : (oid : ℕ) (d : PageDownload) → Stays d (get_object oid d)
unfolding get_object Stays
get_object-Stays oid d = (refl, refl)

start-ahead : ahead (start_download create) ≡ []
unfolding start_download create
start-ahead = refl

-- As long as no batch has ended with an error, the commits that the cloud has told of are, in its
-- order, those that have been downloaded, then those in flight, then those that wait: none is lost,
-- repeated or overtaken, in any order of calls and replies.
pub commits_in_order :
    {d : PageDownload} (q : Reach false d) → told_in q ≡ downloaded_in q ++ ahead d
unfolding Stays get_object
commits_in_order q = go q refl
  where
    go :
        {f : Bool} {d : PageDownload} (q : Reach f d)
        → f ≡ false
        → told_in q ≡ downloaded_in q ++ ahead d
    go (started e) z = rw (e, start-ahead) refl
    go (new_commits {f = f} {d = d} {e = e} commits token q w h) z =
        ap (λ l. l ++ commits) (go q z)
        ∙ append_assoc (downloaded_in q) (ahead d) commits
        ∙ ap (λ l. downloaded_in q ++ l) (sym (on_new_commits-ahead commits token q h))
    go (watcher_error {d = d} {e = e} status q w h) z =
        let (a, b) = on_error-Stays status d e h in go q z ∙ ap (λ l. downloaded_in q ++ l) cc
    go (object_wanted {d = d} oid q e) z = rw e (go q z)
    go (reply {f = f} {d = d} {e = e} i r p rest q h g k) z =
        let n : fails p r ≡ false = ground arith in
        let y : f ≡ false = ground arith in
        ap (λ l. l ++ told_by p r) (go q y)
        ∙ append_assoc (downloaded_in q) (ahead d) (told_by p r)
        ∙ ap (λ l. downloaded_in q ++ l) (reply-ahead d e i r p rest q h n k)
        ∙ sym (append_assoc (downloaded_in q) (downloaded_by p r) (ahead e))

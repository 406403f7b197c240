-- ===== src/Node/Snapshot/Atomic.antt =====
-- The file of metrics is never seen half written.
use dl_dsr_rs.Base.{
  ℕ, ◌≡◌, refl, sym, ap, subst, ◌∙◌, ◌⊎◌, inl, inr, true, false, List, none, some, Result, ok, err,
  Result-cases, arith,
}
use dl_dsr_rs.Core.Socket.{Text, text_beq, text_beq_iff}
use dl_dsr_rs.Core.Float.{F64}
use dl_dsr_rs.Node.State.{ProtocolState}
use dl_dsr_rs.Node.Snapshot.{
  MetricsSnapshot, metrics_snapshot, Disk, put, Ending, done, failed, torn, Files, create_parent,
  replace, write_metrics_snapshot, write_metrics_file,
}

-- The file at `path` has the new content and the call says so, or it is as it was and the call says
-- that it failed.
abbrev pub IsAtomic : Text → List ℕ → Disk → Disk × Result Text (Unit {0}) → Type 0
IsAtomic path content d (d', r) =
    ((r ≡ ok tt) × (d' path ≡ some content))
    ⊎ ((cause : Text) × (r ≡ err cause) × (d' path ≡ d path))

pub text_beq_refl : (t : Text) → text_beq t t ≡ true
text_beq_refl t = (text_beq_iff t t).1 refl

module _ {W : Type 0} (files : Files W) where
  -- Where both calls succeed.
  replace-done :
      (path : Text) (content : List ℕ) (d : Disk)
      → let tmp = files.with_extension_tmp path in
        replace files done done path content d
        ≡ (put path (some content) (put tmp none (put tmp (some content) d)), ok tt)
  unfolding replace
  replace-done path content d = ground (arith, text_beq_refl (files.with_extension_tmp path))

  replace-IsAtomic :
      (written renamed : Ending) (path : Text) (content : List ℕ) (d : Disk)
      → text_beq (files.with_extension_tmp path) path ≡ false
      → IsAtomic path content d (replace files written renamed path content d)
  unfolding replace
  replace-IsAtomic done done path content d apart =
      subst (IsAtomic path content d) (sym (replace-done path content d))
        (inl (refl, rw (text_beq_refl path) refl))
  replace-IsAtomic done (failed cause) path content d apart = inr (cause, refl, rw apart refl)
  replace-IsAtomic done (torn part cause) path content d apart = inr (cause, refl, rw apart refl)
  replace-IsAtomic (failed cause) renamed path content d apart = inr (cause, refl, refl)
  replace-IsAtomic (torn part cause) renamed path content d apart = inr (cause, refl, rw apart refl)

  replace-others :
      (written renamed : Ending) (path : Text) (content : List ℕ) (d : Disk) (q : Text)
      → text_beq path q ≡ false
      → text_beq (files.with_extension_tmp path) q ≡ false
      → (replace files written renamed path content d).0 q ≡ d q
  unfolding replace
  replace-others done done path content d q other other_tmp =
      ap (λ r. r.0 q) (replace-done path content d) ∙ ground arith
  replace-others done (failed cause) path content d q other other_tmp = ground arith
  replace-others done (torn part cause) path content d q other other_tmp = ground arith
  replace-others (failed cause) renamed path content d q other other_tmp = refl
  replace-others (torn part cause) renamed path content d q other other_tmp = ground arith

  write_metrics_snapshot-IsAtomic :
      (ending : ℕ → Ending) (path : Text) (snapshot : MetricsSnapshot W) (content : List ℕ)
      (d : Disk) (q : Text)
      → files.to_vec_pretty snapshot ≡ ok content
      → text_beq (files.with_extension_tmp path) path ≡ false
      → text_beq path q ≡ false
      → text_beq (files.with_extension_tmp path) q ≡ false
      → IsAtomic path content d (write_metrics_snapshot files ending path snapshot d)
        × ((write_metrics_snapshot files ending path snapshot d).0 q ≡ d q)
  unfolding write_metrics_snapshot
  write_metrics_snapshot-IsAtomic ending path snapshot content d q printed apart other other_tmp =
      elim (Result-cases (create_parent files (ending 0) path)) [
        | inl (_, made) ↦
            rw (made, printed, write_metrics_snapshot)
              (
                replace-IsAtomic (ending 1) (ending 2) path content d apart,
                replace-others (ending 1) (ending 2) path content d q other other_tmp,
              )
        | inr (cause, refused) ↦
            rw (refused, write_metrics_snapshot) (inr (cause, refl, refl), refl)
      ]

  -- Let a path for the metrics be configured that is not its own temporary path, let the snapshot
  -- print, and let any call on the file system fail, a write with any part left behind. Then
  -- either the file at the path has the whole snapshot and the call succeeds, or it is as it was
  -- and the call fails; and any file at neither of the two paths is as it was.
  pub write_metrics_file-IsAtomic :
      ⦃f : F64 W⦄ (ending : ℕ → Ending) (s : ProtocolState) (path : Text) (content : List ℕ)
      (d : Disk) (q : Text)
      → s.config.metrics_output_path ≡ some path
      → files.to_vec_pretty (metrics_snapshot s) ≡ ok content
      → text_beq (files.with_extension_tmp path) path ≡ false
      → text_beq path q ≡ false
      → text_beq (files.with_extension_tmp path) q ≡ false
      → IsAtomic path content d (write_metrics_file files ending s d)
        × ((write_metrics_file files ending s d).0 q ≡ d q)
  unfolding write_metrics_file
  write_metrics_file-IsAtomic ending s path content d q at printed apart other other_tmp =
      rw (at, write_metrics_file)
        (write_metrics_snapshot-IsAtomic ending path (metrics_snapshot s) content d q printed apart
          other other_tmp)

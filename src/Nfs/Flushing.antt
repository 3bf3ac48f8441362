-- ===== src/Nfs/Flushing.antt =====
-- A flush uploads a staged file once.
use mathlib.Core.Path.{subst}
use pereprava.Prelude.{
  ℕ, ◌≡◌, refl, sym, ap, ◌∙◌, false, not, ◌⊎◌, inl, inr, Bool-cases, Option-cases, none, some,
  if◌then◌else◌, arith,
}
use pereprava.Prelude.Maps.{get, get-insert}
use pereprava.Core.Names.{Unicode}
use pereprava.Core.Error.{ok}
use pereprava.Core.Model.{Entry}
use pereprava.Nfs.Ids.{Decoded}
use pereprava.Core.Actor.Device.{Device}
use pereprava.Core.Actor.Transfer.{upload_into}
use pereprava.Nfs.State.{Stage, MtpNfs, Answer, good, stage_of, ask, change}
use pereprava.Nfs.Staging.{
  flush_stage, upload_stage, flushed, parent_of_id, drop_old, on_device, file_reads,
}
use pereprava.Nfs.Writes.{go_on-eq-good, writable_lem, not_writable_lem}

module _ (u : Unicode) (D : Device) (id : ℕ) where
  -- The file is not staged, or nothing was written since it was uploaded.
  abbrev IsClean : MtpNfs D → Type 0
  IsClean s =
      (stage_of D id s ≡ none) ⊎ ((st : Stage) × (stage_of D id s ≡ some st) × (st.dirty ≡ false))

  flush_stage-none : (s : MtpNfs D) → stage_of D id s ≡ none → flush_stage u D id s ≡ (good tt, s)
  unfolding flush_stage
  flush_stage-none s e = rw (e, flush_stage) refl

  flush_stage-some :
      (s : MtpNfs D) (st : Stage)
      → stage_of D id s ≡ some st
      → flush_stage u D id s ≡ (if not st.dirty then (good tt, s) else upload_stage u D id st s)
  unfolding flush_stage upload_stage
  flush_stage-some s st e = rw (e, flush_stage) refl

  flush_stage-IsClean : (s : MtpNfs D) → IsClean s → flush_stage u D id s ≡ (good tt, s)
  flush_stage-IsClean s (inl e) = flush_stage-none s e
  flush_stage-IsClean s (inr (st, e, clean)) =
      flush_stage-some s st e ∙ not_writable_lem _ _ _ clean

  flushed-IsClean :
      (p : Decoded) (st : Stage) (e : Entry) (s : MtpNfs D) → IsClean (flushed u D id p st e s)
  unfolding flushed get
  flushed-IsClean p st e s = elim (Option-cases (stage_of D id s)) [
    | inl gone ↦ inl (rw (gone, flushed) gone)
    | inr (now_st, here) ↦
        let kept : Stage = record now_st {
          origin_dev = none;
          flushed_dev = some e.handle;
          storage_index = p.storage_index;
          dirty = false;
          size = st.size;
        } in
        rw (here, flushed) (inr (kept, ground (arith, get-insert id id kept s.staged), refl))
  ]

  same_state :
      {s t : MtpNfs D} → ◌≡◌ {A = Answer (Unit {0}) × MtpNfs D} (good tt, s) (good tt, t) → s ≡ t
  same_state e = ap (λ (x : Answer (Unit {0}) × MtpNfs D). x.1) e

  upload_stage-IsClean :
      (st : Stage) (s s' : MtpNfs D) → upload_stage u D id st s ≡ (good tt, s') → IsClean s'
  unfolding upload_stage change
  upload_stage-IsClean st s s' h =
      let (p, s1, _, h1) = go_on-eq-good (parent_of_id D st.parent_id) _ s s' tt h in
      let (_, s2, _, h2) = go_on-eq-good (ask D (λ a. (ok tt, a))) _ s1 s' tt h1 in
      let (_, s3, _, h3) =
        go_on-eq-good (drop_old u D p.storage_index (on_device st)) _ s2 s' tt h2 in
      let (e, s4, _, h4) =
        go_on-eq-good
          (ask D (upload_into u D p.storage_index p.handle st.name st.size (file_reads st.content)))
          _ s3 s' tt h3 in
      subst IsClean (same_state h4) (flushed-IsClean p st e s4)

  flush_stage_done : (s s' : MtpNfs D) → flush_stage u D id s ≡ (good tt, s') → IsClean s'
  flush_stage_done s s' h = elim (Option-cases (stage_of D id s)) [
    | inl e ↦ subst IsClean (same_state (sym (flush_stage-none s e) ∙ h)) (inl e)
    | inr (st, e) ↦ elim (Bool-cases st.dirty) [
      | inl dirty ↦
          upload_stage-IsClean st s s'
            (sym (flush_stage-some s st e ∙ writable_lem _ _ _ dirty) ∙ h)
      | inr clean ↦
          let settled : IsClean s = inr (st, e, clean) in
          subst IsClean (same_state (sym (flush_stage-IsClean s settled) ∙ h)) settled
    ]
  ]

  -- A flush that succeeds leaves nothing to flush: another one succeeds, sends nothing to the phone,
  -- and leaves the whole state as it is.
  pub flush_stage_twice :
      (s s' : MtpNfs D)
      → flush_stage u D id s ≡ (good tt, s')
      → flush_stage u D id s' ≡ (good tt, s')
  flush_stage_twice s s' h = flush_stage-IsClean s' (flush_stage_done s s' h)

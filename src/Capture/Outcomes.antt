-- ===== src/Capture/Outcomes.antt =====
-- What one Process leaves in the tracker: each projection is reported by its own outcome.
use dota2_ob.Prelude.{
  ◌≡◌, refl, ap, ◌∙◌, inl, inr, Bool-cases, String, Bool, false, Option, none, some, List, arith,
  if◌then◌else◌, lookup, str_eq,
}
use dota2_ob.Prelude.Time.{Time}
use dota2_ob.Operator.{
  ErrorRecord, Tracker, subsystem_raw, subsystem_latest, subsystem_profile, subsystem_analytics,
  u64_suc, clears_raw, make_record, accepted, failure,
}
use dota2_ob.Session.{Bytes, Record, AppendResult, appended}
use dota2_ob.Capture.{
  Processor, Readings, latest_failed, profile_failed, analytics_failed, safe_message,
  report_success, after_apply, apply, process,
}
use dota2_ob.Capture.Reports.{
  SameCounts, count_by_success, cleared, kept_by_success, raw_of_accepted, kept_by_accepted,
  count_by_accepted, requests_by_accepted, rejects_by_accepted, raws_by_accepted, count_by_failure,
  reported, kept_by_failure,
}

module _ {P J : Type 0} (apply_projection : P → Record J → P × Bool) where
  -- The failure that is active for a subsystem after its projection has run on `r`: none after a
  -- success, a new one after an error, and the old one if there is no projection.
  abbrev pub outcome :
      String → String → Time → Record J → Option P → Option ErrorRecord → Option ErrorRecord
  outcome subsystem code now r none old = old
  outcome subsystem code now r (some p) old =
      if (apply_projection p r).1
      then none
      else some (make_record now subsystem code (safe_message code))

  -- One projection touches the status of its own subsystem, and none of these counters.
  record Applied (subsystem code : String) (now : Time) (r : Record J) (p : Option P)
      (t t' : Tracker) : Type 0 where
    own : lookup subsystem t'.active ≡ outcome subsystem code now r p (lookup subsystem t.active)
    others : (k : String) → str_eq subsystem k ≡ false → lookup k t'.active ≡ lookup k t.active
    count : SameCounts t t'

  apply-Applied :
      (subsystem code : String) (now : Time) (r : Record J) (p : Option P) (t : Tracker)
      (logged : List (String × String))
      → str_eq subsystem subsystem_raw ≡ false
      → (t' : Tracker) × ((apply apply_projection subsystem code now r p (some t) logged).1
          ≡ some t')
        × Applied subsystem code now r p t t'
  unfolding apply
  apply-Applied subsystem code now r none t logged not_raw =
      (t, refl, record { own = refl; others = λ k h. refl; count = ground arith })
  apply-Applied subsystem code now r (some p) t logged not_raw =
      elim (Bool-cases (apply_projection p r).1) [
        | inl fine ↦ (
          report_success subsystem r.received_at t,
          rw (fine, after_apply),
          record {
            own = rw fine (cleared subsystem r.received_at t not_raw);
            others = kept_by_success subsystem r.received_at t not_raw;
            count = count_by_success subsystem r.received_at t;
          },
        )
        | inr bad ↦ (
          failure now subsystem code (safe_message code) t,
          rw (bad, after_apply),
          record {
            own = rw bad (reported now subsystem code (safe_message code) t);
            others = kept_by_failure now subsystem code (safe_message code) t;
            count = count_by_failure now subsystem code (safe_message code) t;
          },
        )
      ]

module _ {A P J : Type 0} (append_raw : A → Bytes → A × AppendResult J)
    (apply_projection : P → Record J → P × Bool) where
  -- What Process makes of a snapshot that the journal took, for a processor with a tracker.
  pub record Processed (at : Readings) (p : Processor A P) (t t' : Tracker) (r : Record J)
      : Type 0 where
    pub latest :
        lookup subsystem_latest t'.active
        ≡ outcome apply_projection subsystem_latest latest_failed at.latest_at r p.latest
            (lookup subsystem_latest t.active)
    pub profile :
        lookup subsystem_profile t'.active
        ≡ outcome apply_projection subsystem_profile profile_failed at.profile_at r p.profile
            (lookup subsystem_profile t.active)
    pub analytics :
        lookup subsystem_analytics t'.active
        ≡ outcome apply_projection subsystem_analytics analytics_failed at.analytics_at r
            p.analytics
            (lookup subsystem_analytics t.active)
    pub raw : lookup subsystem_raw t'.active ≡ (
        if clears_raw (lookup subsystem_raw t.active) then none else lookup subsystem_raw t.active)
    pub requests : t'.request_count ≡ t.request_count
    pub accepts : t'.accepted_count ≡ u64_suc t.accepted_count
    pub rejects : t'.rejected_count ≡ t.rejected_count
    pub raws : t'.raw_failures ≡ t.raw_failures

  tracker_of_process :
      (at : Readings) (raw : Bytes) (p : Processor A P) (t : Tracker) (r : Record J)
      (t1 t2 t3 : Tracker)
      → p.tracker ≡ some t
      → (append_raw p.appender raw).1 ≡ appended r
      → let a1 =
          apply apply_projection subsystem_latest latest_failed at.latest_at r p.latest
            (some (accepted r.received_at t))
            p.logged in
        let a2 =
          apply apply_projection subsystem_profile profile_failed at.profile_at r p.profile
            (some t1)
            a1.2 in
        let a3 =
          apply apply_projection subsystem_analytics analytics_failed at.analytics_at r p.analytics
            (some t2)
            a2.2 in
        a1.1 ≡ some t1
        → a2.1 ≡ some t2
        → a3.1 ≡ some t3
        → (process append_raw apply_projection at raw p).0.tracker ≡ some t3
  unfolding process
  tracker_of_process at raw p t r t1 t2 t3 watched taken e1 e2 e3 = ground arith

  -- When the journal took a snapshot, Process on a processor with a tracker returns its record
  -- whatever the projections do, counts one more accepted record, leaves the counters of requests,
  -- rejections and raw failures, clears a raw failure unless it is the sealed one, and reports
  -- each of the three projections by its own outcome: one that fails stops none of the others.
  pub process-Processed :
      (at : Readings) (raw : Bytes) (p : Processor A P) (t : Tracker) (r : Record J)
      → p.tracker ≡ some t
      → (append_raw p.appender raw).1 ≡ appended r
      → ((process append_raw apply_projection at raw p).1 ≡ appended r)
        × ((t' : Tracker) × ((process append_raw apply_projection at raw p).0.tracker ≡ some t')
            × Processed at p t t' r)
  unfolding process
  process-Processed at raw p t r watched taken =
      let t0 : Tracker = accepted r.received_at t in
      let (t1, e1, a1) =
        apply-Applied apply_projection subsystem_latest latest_failed at.latest_at r p.latest t0
          p.logged refl in
      let l1 : List (String × String) =
        (apply apply_projection subsystem_latest latest_failed at.latest_at r p.latest (some t0)
          p.logged).2 in
      let (t2, e2, a2) =
        apply-Applied apply_projection subsystem_profile profile_failed at.profile_at r p.profile t1
          l1 refl in
      let l2 : List (String × String) =
        (apply apply_projection subsystem_profile profile_failed at.profile_at r p.profile (some t1)
          l1).2 in
      let (t3, e3, a3) =
        apply-Applied apply_projection subsystem_analytics analytics_failed at.analytics_at r
          p.analytics t2 l2 refl in
      (
        ground arith,
        (
          t3,
          tracker_of_process at raw p t r t1 t2 t3 watched taken e1 e2 e3,
          record {
            latest =
                a3.others subsystem_latest refl
                ∙ a2.others subsystem_latest refl
                ∙ a1.own
                ∙ ap
                    (outcome apply_projection subsystem_latest latest_failed at.latest_at r
                      p.latest)
                    (kept_by_accepted r.received_at t subsystem_latest refl);
            profile =
                a3.others subsystem_profile refl
                ∙ a2.own
                ∙ ap
                    (outcome apply_projection subsystem_profile profile_failed at.profile_at r
                      p.profile)
                    (a1.others subsystem_profile refl
                      ∙ kept_by_accepted r.received_at t subsystem_profile refl);
            analytics =
                a3.own
                ∙ ap
                    (outcome apply_projection subsystem_analytics analytics_failed at.analytics_at r
                      p.analytics)
                    (a2.others subsystem_analytics refl
                      ∙ a1.others subsystem_analytics refl
                      ∙ kept_by_accepted r.received_at t subsystem_analytics refl);
            raw =
                a3.others subsystem_raw refl
                ∙ a2.others subsystem_raw refl
                ∙ a1.others subsystem_raw refl
                ∙ raw_of_accepted r.received_at t;
            requests =
                a3.count.requests
                ∙ a2.count.requests
                ∙ a1.count.requests
                ∙ requests_by_accepted r.received_at t;
            accepts =
                a3.count.accepts
                ∙ a2.count.accepts
                ∙ a1.count.accepts
                ∙ count_by_accepted r.received_at t;
            rejects =
                a3.count.rejects
                ∙ a2.count.rejects
                ∙ a1.count.rejects
                ∙ rejects_by_accepted r.received_at t;
            raws = a3.count.raws ∙ a2.count.raws ∙ a1.count.raws ∙ raws_by_accepted r.received_at t;
          },
        ),
      )

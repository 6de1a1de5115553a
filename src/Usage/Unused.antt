-- ===== src/Usage/Unused.antt =====
-- When `checkAndReportUnusedJob` is silent.
use circleci_yaml_language_s.Prelude.{
  ◌≡◌, ◌↔◌, ◌⊎◌, Any, refl, String, Bool, true, false, ◌&&◌, ◌||◌, Bool-cases, inl, inr, none, some,
  List, [], ◌∷◌, ◌++◌, arith, string_eq, ◌==◌, if◌then◌else◌,
}
use circleci_yaml_language_s.Prelude.Dict.{Dict}
use circleci_yaml_language_s.Syntax.{Job, JobInvocation, JobGroup, Workflow}
use circleci_yaml_language_s.Usage.{
  invokes, is_job_group_used_in_workflows, scan_group, scan_groups, is_step_of_jobs,
  check_if_steps_contain_step, check_and_report_unused_job,
}

string_eq_iff : (s t : String) → (s == t) ≡ true ↔ s ≡ t
string_eq_iff s t = (λ h. ground (arith, h), λ e. ground (arith, e))

or_iff : {a b : Bool} {P Q : Type 0} → a ≡ true ↔ P → b ≡ true ↔ Q → (a || b) ≡ true ↔ P ⊎ Q
or_iff {a = a} {b = b} (to, from) (to', from') = (
  λ h. elim (Bool-cases a) [ inl e ↦ inl (to e) | inr e ↦ inr (to' (ground (arith, h, e))) ],
  λ f. elim f [ inl p ↦ ground (arith, from p) | inr q ↦ or_right a (from' q) ],
)
  where
    or_right : (c : Bool) → b ≡ true → (c || b) ≡ true
    or_right c h = ground (arith, h)

and_iff : {a b : Bool} {P Q : Type 0} → a ≡ true ↔ P → b ≡ true ↔ Q → (a && b) ≡ true ↔ P × Q
and_iff {a = a} {b = b} (to, from) (to', from') = (
  λ h. (to (ground (arith, h)), to' (ground (arith, h))),
  λ (p, q). ground (arith, from p, from' q),
)

module _ {Step : Type 0} where
  -- The name is that of a step of a job.
  abbrev pub StepOfJob : (Step → String) → List (Job Step) → String → Type 0
  StepOfJob get_name jobs name = Any (λ j. Any (λ s. get_name s ≡ name) j.steps) jobs

  steps-Named :
      (get_name : Step → String) (steps : List Step) (name : String)
      → check_if_steps_contain_step get_name steps name ≡ true ↔ Any (λ s. get_name s ≡ name) steps
  unfolding check_if_steps_contain_step
  steps-Named get_name [] name = (λ h. absurd (ground (arith, h)), λ f. absurd f)
  steps-Named get_name (s ∷ steps) name =
      or_iff (string_eq_iff (get_name s) name) (steps-Named get_name steps name)

  jobs-StepOfJob :
      (get_name : Step → String) (jobs : List (Job Step)) (name : String)
      → is_step_of_jobs get_name jobs name ≡ true ↔ StepOfJob get_name jobs name
  unfolding is_step_of_jobs
  jobs-StepOfJob get_name [] name = (λ h. absurd (ground (arith, h)), λ f. absurd f)
  jobs-StepOfJob get_name (j ∷ jobs) name =
      or_iff (steps-Named get_name j.steps name) (jobs-StepOfJob get_name jobs name)

module _ {Step Value : Type 0} where
  -- A group that a workflow invokes invokes the job.
  abbrev pub is_in_used_group :
      List (Workflow Step Value) → Dict String (JobGroup Step Value) → String → Bool
  is_in_used_group workflows [] name = false
  is_in_used_group workflows ((group_name, group) ∷ job_groups) name =
      is_job_group_used_in_workflows workflows group_name && invokes group.job_invocations name
      || is_in_used_group workflows job_groups name

  scan_group-stops :
      (is_used : Bool) (group_name : String) (invs : List (JobInvocation Step Value))
      (name : String) (unused : List String)
      → (is_used && invokes invs name) ≡ true
      → scan_group is_used group_name invs name unused ≡ none
  unfolding scan_group invokes
  scan_group-stops is_used group_name [] name unused h = absurd (ground arith)
  scan_group-stops is_used group_name (inv ∷ invs) name unused h =
      ground (arith, scan_group-stops is_used group_name invs name unused)

  scan_group-passes :
      (is_used : Bool) (group_name : String) (invs : List (JobInvocation Step Value))
      (name : String) (unused : List String)
      → (is_used && invokes invs name) ≡ false
      → (unused' : List String) × (scan_group is_used group_name invs name unused ≡ some unused')
  unfolding scan_group invokes
  scan_group-passes is_used group_name [] name unused h = (unused, refl)
  scan_group-passes is_used group_name (inv ∷ invs) name unused h =
      let (more, e) =
        scan_group-passes is_used group_name invs name
          (if inv.job_name == name then unused ++ group_name ∷ [] else unused) (ground arith) in
      (more, ground (arith, e))

  scan_groups-stops :
      (workflows : List (Workflow Step Value)) (groups : Dict String (JobGroup Step Value))
      (name : String) (unused : List String)
      → is_in_used_group workflows groups name ≡ true
      → scan_groups workflows groups name unused ≡ none
  unfolding scan_groups
  scan_groups-stops workflows [] name unused h = absurd (ground arith)
  scan_groups-stops workflows ((g, group) ∷ groups) name unused h =
      let used = is_job_group_used_in_workflows workflows g in
      elim (Bool-cases (used && invokes group.job_invocations name)) [
        | inl stop ↦
            rw (scan_group-stops used g group.job_invocations name unused stop, scan_groups) refl
        | inr go ↦
            let (more, e) = scan_group-passes used g group.job_invocations name unused go in
            rw (e, scan_groups)
              (scan_groups-stops workflows groups name more (ground (arith, h, go)))
      ]

  scan_groups-passes :
      (workflows : List (Workflow Step Value)) (groups : Dict String (JobGroup Step Value))
      (name : String) (unused : List String)
      → is_in_used_group workflows groups name ≡ false
      → (unused' : List String) × (scan_groups workflows groups name unused ≡ some unused')
  unfolding scan_groups
  scan_groups-passes workflows [] name unused h = (unused, refl)
  scan_groups-passes workflows ((g, group) ∷ groups) name unused h =
      let used = is_job_group_used_in_workflows workflows g in
      let (more, e) =
        scan_group-passes used g group.job_invocations name unused (ground (arith, h)) in
      let (all, e') = scan_groups-passes workflows groups name more (ground (arith, h)) in
      (all, rw (e, scan_groups) e')

  -- One of the invocations is of the name.
  abbrev pub Invoked : List (JobInvocation Step Value) → String → Type 0
  Invoked invs name = Any (λ inv. inv.job_name ≡ name) invs

  -- A workflow invokes the name.
  abbrev pub InWorkflow : List (Workflow Step Value) → String → Type 0
  InWorkflow workflows name = Any (λ w. Invoked w.job_invocations name) workflows

  -- A group that a workflow invokes invokes the job.
  abbrev pub InUsedGroup :
      List (Workflow Step Value) → Dict String (JobGroup Step Value) → String → Type 0
  InUsedGroup workflows groups name =
      Any (λ g. InWorkflow workflows g.0 × Invoked g.1.job_invocations name) groups

  invokes-Invoked :
      (invs : List (JobInvocation Step Value)) (name : String)
      → invokes invs name ≡ true ↔ Invoked invs name
  unfolding invokes
  invokes-Invoked [] name = (λ h. absurd (ground (arith, h)), λ f. absurd f)
  invokes-Invoked (inv ∷ invs) name =
      or_iff (string_eq_iff inv.job_name name) (invokes-Invoked invs name)

  workflows-InWorkflow :
      (workflows : List (Workflow Step Value)) (name : String)
      → is_job_group_used_in_workflows workflows name ≡ true ↔ InWorkflow workflows name
  unfolding is_job_group_used_in_workflows
  workflows-InWorkflow [] name = (λ h. absurd (ground (arith, h)), λ f. absurd f)
  workflows-InWorkflow (w ∷ workflows) name =
      or_iff (invokes-Invoked w.job_invocations name) (workflows-InWorkflow workflows name)

  groups-InUsedGroup :
      (workflows : List (Workflow Step Value)) (groups : Dict String (JobGroup Step Value))
      (name : String)
      → is_in_used_group workflows groups name ≡ true ↔ InUsedGroup workflows groups name
  groups-InUsedGroup workflows [] name = (λ h. absurd (ground (arith, h)), λ f. absurd f)
  groups-InUsedGroup workflows ((g, group) ∷ groups) name =
      or_iff
        (and_iff (workflows-InWorkflow workflows g) (invokes-Invoked group.job_invocations name))
        (groups-InUsedGroup workflows groups name)

  report-silent :
      (get_name : Step → String) (sort_strings : List String → List String) (jobs : List (Job Step))
      (workflows : List (Workflow Step Value)) (groups : Dict String (JobGroup Step Value))
      (job : Job Step)
      → check_and_report_unused_job get_name sort_strings jobs workflows groups job ≡ []
        ↔ (is_step_of_jobs get_name jobs job.name
            || (is_job_group_used_in_workflows workflows job.name
                || is_in_used_group workflows groups job.name))
          ≡ true
  unfolding check_and_report_unused_job
  report-silent get_name sort_strings jobs workflows groups job =
      elim (Bool-cases (is_in_used_group workflows groups job.name)) [
        | inl used ↦ (
          λ h. ground (arith, used),
          λ h. ground (arith, scan_groups-stops workflows groups job.name [] used),
        )
        | inr unused ↦
            let (names, e) = scan_groups-passes workflows groups job.name [] unused in
            (λ h. ground (arith, h, e, unused), λ h. ground (arith, h, unused))
      ]

  -- Whatever the orders of the maps, nothing is said of a job exactly where its name is that of a
  -- step of a job, a workflow invokes it, or a workflow invokes a job group that invokes it.
  pub check_and_report_unused_job-silent :
      (get_name : Step → String) (sort_strings : List String → List String) (jobs : List (Job Step))
      (workflows : List (Workflow Step Value)) (groups : Dict String (JobGroup Step Value))
      (job : Job Step)
      → check_and_report_unused_job get_name sort_strings jobs workflows groups job ≡ []
        ↔ StepOfJob get_name jobs job.name
          ⊎ (InWorkflow workflows job.name ⊎ InUsedGroup workflows groups job.name)
  check_and_report_unused_job-silent get_name sort_strings jobs workflows groups job =
      let (sound, complete) = report-silent get_name sort_strings jobs workflows groups job in
      let (to, from) = or_iff (jobs-StepOfJob get_name jobs job.name) (
        or_iff (workflows-InWorkflow workflows job.name)
          (groups-InUsedGroup workflows groups job.name)) in
      (λ h. to (sound h), λ f. complete (from f))

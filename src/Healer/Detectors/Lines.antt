-- ===== src/Healer/Detectors/Lines.antt =====
-- What the self-healer takes from a line that KafkaConsumerService logs for a job behind its rate
-- limiter.
use mathlib.Core.List.{append-nil, append_assoc}
use job_queue_event_processi.Prelude.{
  ◌≡◌, ◌≢◌, ◌∙◌, refl, sym, ap, true, false, some, [], ◌∷◌, ◌++◌, arith,
}
use job_queue_event_processi.Healer.Text.{Text, codes, is_digit, is_capital, contains, capture}
use job_queue_event_processi.Healer.Text.Search.{all_of, Quiet, capture-append}
use job_queue_event_processi.Healer.Domain.{Incident, rate_limited_job, medium}
use job_queue_event_processi.Healer.Detectors.{
  base_incident, job_id_of, type_of, watcher_gap_detector, rate_limit_detector, default_chain,
}
use job_queue_event_processi.Healer.Text.Keys.{
  no_equals, all_of-append, last_of-append, Quiet-own, Quiet-other, Quiet-append, contains-append,
}

-- The line that the consumer logs for a job behind its rate limiter, with what the logger puts in front.
abbrev pub limited_line : (prefix type id : Text) → Text
limited_line prefix type id =
    prefix
    ++ (codes "Rate limit hit for type=" ++ (type ++ (codes ", scheduling retry jobId=" ++ id)))

module _ (prefix type id : Text) (plain : all_of no_equals prefix ≡ true)
    (capitals : all_of is_capital type ≡ true) (digits : all_of is_digit id ≡ true)
    (typed : type ≢ []) (numbered : id ≢ []) where
  abbrev after_type : Text
  after_type = codes ", scheduling retry jobId=" ++ id

  abbrev head : Text
  head = prefix ++ codes "Rate limit hit for "

  head-plain : all_of no_equals head ≡ true
  head-plain = all_of-append no_equals prefix (codes "Rate limit hit for ") plain refl

  limited-type : capture (codes "type=") is_capital (limited_line prefix type id) ≡ type
  limited-type =
      ap (capture (codes "type=") is_capital) (
        sym (
          append_assoc prefix (codes "Rate limit hit for ")
            (codes "type=" ++ (type ++ after_type))))
      ∙ capture-append (codes "type=") is_capital b't' (codes "ype=") head type after_type refl
          (Quiet-own (codes "type") is_capital refl head (type ++ after_type) head-plain) capitals
          typed refl

  capitals-plain : (s : Text) → all_of is_capital s ≡ true → all_of no_equals s ≡ true
  capitals-plain [] h = refl
  capitals-plain (c ∷ cs) h = grind (arith, capitals-plain cs)

  abbrev before_type : Text
  before_type = head ++ codes "type"

  abbrev middle : Text
  middle = type ++ codes ", scheduling retry "

  abbrev number_part : Text
  number_part = codes "jobId=" ++ (id ++ [])

  limited-parts :
      limited_line prefix type id ≡ ((before_type ++ (61 ∷ [])) ++ middle) ++ number_part
  limited-parts =
      ap (limited_line prefix type) (sym (append-nil id))
      ∙ ap (λ t. prefix ++ (codes "Rate limit hit for type=" ++ t))
          (sym (append_assoc type (codes ", scheduling retry ") number_part))
      ∙ sym (
          append_assoc prefix (codes "Rate limit hit for ")
            (codes "type=" ++ (middle ++ number_part)))
      ∙ sym (append_assoc head (codes "type") (61 ∷ (middle ++ number_part)))
      ∙ sym (append_assoc before_type (61 ∷ []) (middle ++ number_part))
      ∙ sym (append_assoc (before_type ++ (61 ∷ [])) middle number_part)

  limited-Quiet : Quiet (codes "jobId=") is_digit ((before_type ++ (61 ∷ [])) ++ middle) number_part
  limited-Quiet =
      Quiet-append (codes "jobId") is_digit refl (before_type ++ (61 ∷ [])) middle number_part
        (Quiet-other (codes "jobId") is_digit refl before_type (middle ++ number_part)
          (all_of-append no_equals head (codes "type") head-plain refl)
          (λ e. absurd (ground (arith, e)))
          (λ e. absurd (omega (arith, e, last_of-append 0 head b't' (codes "ype")))))
        (Quiet-own (codes "jobId") is_digit refl middle (id ++ []) (
          all_of-append no_equals type (codes ", scheduling retry ") (capitals-plain type capitals)
            refl))

  limited-job_id : capture (codes "jobId=") is_digit (limited_line prefix type id) ≡ id
  limited-job_id =
      ap (capture (codes "jobId=") is_digit) limited-parts
      ∙ capture-append (codes "jobId=") is_digit b'j' (codes "obId=")
          ((before_type ++ (61 ∷ [])) ++ middle) id [] refl limited-Quiet digits numbered refl

  -- A line that the consumer logs for a job behind its rate limiter, where the logger puts no equals
  -- sign in front and the line does not show a watcher gap: the chain detects a limited job, with the
  -- job's type and id.
  pub limited_line_detected :
      contains (limited_line prefix type id) (codes "Watcher gap detected") ≡ false
      → (i : Incident) × (default_chain (limited_line prefix type id) ≡ some i)
        × (i.type ≡ rate_limited_job)
        × (i.job_type ≡ type)
        × (i.job_id ≡ id)
  unfolding default_chain watcher_gap_detector rate_limit_detector base_incident job_id_of type_of
  limited_line_detected no_gap =
      let hit : contains (limited_line prefix type id) (codes "Rate limit hit") ≡ true =
        contains-append prefix (codes "Rate limit hit")
          (codes " for type=" ++ (type ++ after_type)) in
      let line = limited_line prefix type id in
      let incident =
        record (base_incident rate_limited_job medium
          "Job processing is being throttled by the rate limiter" line) {
            job_id = job_id_of line;
            job_type = type_of line;
          } in
      (
        incident,
        rw (default_chain, watcher_gap_detector, rate_limit_detector, no_gap, hit) refl,
        refl,
        limited-type,
        limited-job_id,
      )

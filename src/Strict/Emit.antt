-- ===== src/Strict/Emit.antt =====
-- The pulses, the resolution of the entry and the answers of the strict executor, as steps that keep
-- what `Follows` says.
use weft_end.Prelude.{
  ℕ, suc, ◌+◌, ◌≤◌, ◌≡◌, refl, ◌∙◌, ap, String, Bool, true, false, Option, none, List, [], ◌∷◌,
  arith, Option-cases, Bool-cases, inl, inr, if◌then◌else◌, str_eq, eq_iff,
}
use weft_end.Text.Table.{Table, get, set, get-set}
use weft_end.Reasons.{or_default}
use weft_end.Pulse.{
  Pulse, PulseKind, load, exit, PulseSubject, PulseCounts, seal_pulse, normalize_pulse_body,
  release,
}
use weft_end.Strict.Types.{failed, SandboxResult, StrictOptions, StrictPort, Executor, pulsed}
use weft_end.Strict.State.{
  subject_key, last_pulse, emit_pulse, emit_load_pulse, emit_exit_pulse, known_release_id,
  block_subject, exit_codes, settle_entry, resolve_entry, refuse_entry, post_to_sandbox,
}
use weft_end.Strict.Effects.{grants, granted_by, pulses, pulse_of, numbers, ends, exits}
use weft_end.Strict.Follows.{
  Follows, Follows-then, Follows-append, Follows-quiet, Follows-set, Follows-refl, Follows-if,
  Follows-elim, Ported, told, Refines-refl,
}

-- The last number of a subject goes up by one for its own pulse.
next_number : Table ℕ → String → Table ℕ
next_number table own = set table own (suc (or_default 0 (get table own)))

or_default-next_number :
    (table : Table ℕ) (own key : String)
    → or_default 0 (get (next_number table own) key)
      ≡ or_default 0 (get table key) + (if str_eq own key then 1 else 0)
unfolding next_number
or_default-next_number table own key = elim (Bool-cases (str_eq own key)) [
  | inl m ↦
      rw (get-set table own key (suc (or_default 0 (get table own))), m)
        (rw ((eq_iff own key).0 m) (omega arith))
  | inr m ↦ rw (get-set table own key (suc (or_default 0 (get table own))), m) (omega arith)
]

-- A pulse with the next number of its subject.
one_pulse :
    (x y : Executor) (p : Pulse)
    → let own = subject_key p.body.subject in
      p.body.pulse_seq ≡ suc (last_pulse x own)
      → y.pulse_seq_by_subject ≡ next_number x.pulse_seq_by_subject own
      → told x.exit_pulse_emitted + ends p.body.kind ≤ told y.exit_pulse_emitted
      → y.entry ≡ x.entry
      → y.host_port ≡ x.host_port
      → (Ported x → Ported y)
      → y.kernel ≡ x.kernel
      → Follows x (y, pulsed p ∷ [])
unfolding last_pulse numbers exits pulses pulse_of grants granted_by
one_pulse x y p number table told_now entry port ported kernel =
    let own = subject_key p.body.subject in
    record {
      entry = λ r e. entry ∙ e;
      exit = omega (arith, told_now);
      counts = λ key. elim (Bool-cases (str_eq own key)) [
        | inl m ↦ rw m (number ∙ ap (λ k. suc (last_pulse x k)) ((eq_iff own key).0 m), tt)
        | inr m ↦ rw m tt
      ];
      counted = λ key. elim (Bool-cases (str_eq own key)) [
        | inl m ↦ rw (m, table) (or_default-next_number x.pulse_seq_by_subject own key ∙ rw m refl)
        | inr m ↦ rw (m, table) (or_default-next_number x.pulse_seq_by_subject own key ∙ rw m refl)
      ];
      port = λ e. port ∙ e;
      ported = ported;
      refines = rw kernel (Refines-refl x.kernel);
    }

settle_entry-Follows : (r : SandboxResult) (x : Executor) → Follows x (settle_entry r x, [])
unfolding settle_entry pulses grants numbers exits last_pulse
settle_entry-Follows r x = record {
  entry = λ q e. rw e refl;
  exit = elim (Option-cases x.entry) [
    | inl e ↦ rw e (omega arith)
    | inr (q, e) ↦ rw e (omega arith)
  ];
  counts = λ key. tt;
  counted = λ key. elim (Option-cases x.entry) [
    | inl e ↦ rw e (omega arith)
    | inr (q, e) ↦ rw e (omega arith)
  ];
  port = λ h. ground (arith, Option-cases x.entry);
  ported = λ h. elim (Option-cases x.entry) [ inl e ↦ rw e h | inr (q, e) ↦ rw e h ];
  refines = elim (Option-cases x.entry) [
    | inl e ↦ rw e (Refines-refl x.kernel)
    | inr (q, e) ↦ rw e (Refines-refl x.kernel)
  ];
}

-- A refusal is no grant.
pub refusal-Follows :
    (id : String) (codes : Option (List String)) (x : Executor)
    → Follows x (post_to_sandbox (record { req_id = id; outcome = failed codes }) x)
unfolding post_to_sandbox pulses grants pulse_of granted_by
refusal-Follows id codes x = elim (Bool-cases x.host_port) [
  | inl e ↦
      Follows-quiet x x _ refl (omega arith) refl (λ p. p) (λ p. p) (Refines-refl x.kernel)
        (rw e refl) (rw e refl)
  | inr e ↦
      Follows-quiet x x _ refl (omega arith) refl (λ p. p) (λ p. p) (Refines-refl x.kernel)
        (rw e refl) (rw e refl)
]

module _ (port : StrictPort) (opts : StrictOptions) where
  -- `b` says whether the pulse of the end has been told once this pulse is.
  pub emit_pulse-Follows :
      (kind : PulseKind) (subject : PulseSubject) (cap_id : Option String) (codes : List String)
      (counts : Option PulseCounts) (x : Executor) (b : Bool)
      → told x.exit_pulse_emitted + ends kind ≤ told b
      → Follows x (
          emit_pulse port opts kind subject cap_id codes counts
            (record x { exit_pulse_emitted = b }))
  unfolding emit_pulse last_pulse next_number pulses grants seal_pulse normalize_pulse_body
  emit_pulse-Follows kind subject cap_id codes counts x b h = elim (Bool-cases opts.on_pulse) [
    | inl on ↦ rw on (one_pulse x _ _ refl refl h refl refl (λ p. p) refl)
    | inr off ↦ rw off (
        Follows-quiet x _ [] refl (omega (arith, h)) refl (λ e. e) (λ p. p) (Refines-refl x.kernel)
          refl refl)
  ]

  -- The same, of a kind that tells of no end.
  pub emit-Follows :
      (kind : PulseKind) (subject : PulseSubject) (cap_id : Option String) (codes : List String)
      (counts : Option PulseCounts) (x : Executor)
      → ends kind ≡ 0
      → Follows x (emit_pulse port opts kind subject cap_id codes counts x)
  emit-Follows kind subject cap_id codes counts x h =
      emit_pulse-Follows kind subject cap_id codes counts x x.exit_pulse_emitted (omega (arith, h))

  pub emit_load_pulse-Follows :
      (codes : List String) (x : Executor) → Follows x (emit_load_pulse port opts codes x)
  unfolding emit_load_pulse ends
  emit_load_pulse-Follows codes x =
      let noted : Executor = record x { load_pulse_emitted = true } in
      let quiet : Follows x (noted, []) =
        Follows-set x noted refl refl refl refl (λ p. p) (Refines-refl x.kernel) in
      Follows-if x x.load_pulse_emitted _ _ (λ e. Follows-refl x)
        (λ e.
          Follows-elim x (known_release_id opts x) _ _ (λ e. quiet)
            (λ id e.
              Follows-append x noted _ [] _ quiet (
                emit-Follows load (record { kind = release; id = id }) none codes none noted refl)))

  pub emit_exit_pulse-Follows :
      (r : SandboxResult) (x : Executor) → Follows x (emit_exit_pulse port opts r x)
  unfolding emit_exit_pulse ends
  emit_exit_pulse-Follows r x =
      Follows-if x x.exit_pulse_emitted _ _ (λ e. Follows-refl x)
        (λ e.
          emit_pulse-Follows exit (block_subject opts) none (exit_codes r.outcome) none x true
            (rw e (omega arith)))

  pub resolve_entry-Follows :
      (r : SandboxResult) (x : Executor) → Follows x (resolve_entry port opts r x)
  unfolding resolve_entry
  resolve_entry-Follows r x =
      let cleared : Executor = record x { entry_timeout_set = false } in
      Follows-append x cleared _ [] _
        (Follows-set x cleared refl refl refl refl (λ p. p) (Refines-refl x.kernel))
        (Follows-then cleared (emit_exit_pulse port opts r cleared) _
          (emit_exit_pulse-Follows r cleared) (settle_entry-Follows r _))

  pub refuse_entry-Follows :
      (codes : List String) (x : Executor) → Follows x (refuse_entry port opts codes x)
  unfolding refuse_entry
  refuse_entry-Follows codes x = resolve_entry-Follows _ x

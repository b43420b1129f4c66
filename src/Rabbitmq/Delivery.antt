-- ===== src/Rabbitmq/Delivery.antt =====
-- What is reported is published, in order and once.
use judge_system.Base.{
  ℕ, suc, ◌+◌, ◌*◌, ◌-◌, ◌≤◌, ◌≡◌, refl, sym, ap, ◌∙◌, Bool, true, false, String, List, [], ◌∷◌,
  ◌++◌, map, length, length-append, any, if◌then◌else◌, Bool-cases, inl, inr, arith,
}
use mathlib.Core.List.{append-nil, append_assoc}
use judge_system.Queue.{try_pop, push}
use judge_system.Rabbitmq.{
  PendingMessage, RabbitmqChannel, new_channel, report_to, report_default, write_round, Event,
  reported, reported_to, round, ended, shut_down, step, run,
}

-- The messages that wait, the one that is being sent first.
abbrev pub held : RabbitmqChannel → List PendingMessage
held c = if c.sending then c.message ∷ c.write_queue.q else c.write_queue.q

-- The messages that the events report, with their routing keys.
abbrev pub all_reported : String → List Event → List PendingMessage
all_reported key [] = []
all_reported key (reported message ∷ es) =
    record { message = message; routing_key = key } ∷ all_reported key es
all_reported key (reported_to message own ∷ es) =
    record { message = message; routing_key = own } ∷ all_reported key es
all_reported key (round returns ∷ es) = all_reported key es
all_reported key (ended ∷ es) = all_reported key es

abbrev pub is_ended : Event → Bool
is_ended ended = true
is_ended _ = false

abbrev pub count_true : List Bool → ℕ
count_true [] = 0
count_true (true ∷ bs) = suc (count_true bs)
count_true (false ∷ bs) = count_true bs

abbrev number : Bool → ℕ
number true = 1
number false = 0

-- The rounds that publish all that waits, if `BasicPublish` returns in each.
abbrev left : RabbitmqChannel → ℕ
left c = 2 * length c.write_queue.q + number c.sending

-- What a round of the thread keeps, and the progress that it makes.
record Round (returns : Bool) (c d : RabbitmqChannel) : Type 0 where
  total : d.published ++ held d ≡ c.published ++ held c
  progress : c.server_shutdown ≡ false → left d ≤ left c - number returns
  key : d.routing_key ≡ c.routing_key
  shut : d.server_shutdown ≡ c.server_shutdown

write_round_lem : (returns : Bool) (c : RabbitmqChannel) → Round returns c (write_round returns c)
unfolding write_round try_pop
write_round_lem returns c = elim (Bool-cases c.sending) [
  | inl s ↦ sent returns s
  | inr s ↦ elim (Bool-cases c.server_shutdown) [
    | inl e ↦
        rw (write_round, s, e)
          (record { total = refl; progress = λ n. absurd (ground arith); key = refl; shut = refl })
    | inr e ↦ popped c.write_queue.q refl s e
  ]
]
  where
    sent : (b : Bool) → c.sending ≡ true → Round b c (write_round b c)
    sent true s =
        rw (write_round, s)
          (record {
            total = append_assoc c.published (c.message ∷ []) c.write_queue.q;
            progress = λ n. omega arith;
            key = refl;
            shut = refl;
          })
    sent false s =
        rw (write_round, s)
          (record { total = refl; progress = λ n. omega arith; key = refl; shut = refl })

    popped :
        (q : List PendingMessage)
        → c.write_queue.q ≡ q
        → c.sending ≡ false
        → c.server_shutdown ≡ false
        → Round returns c (write_round returns c)
    popped [] q s e =
        rw (write_round, s, e, q)
          (record { total = refl; progress = λ n. omega arith; key = refl; shut = refl })
    popped (m ∷ ms) q s e =
        rw (write_round, s, e, q)
          (record { total = refl; progress = λ n. ground arith; key = refl; shut = refl })

held-report :
    (message key : String) (c : RabbitmqChannel)
    → held (report_to message key c)
      ≡ (held c ++ record { message = message; routing_key = key } ∷ [])
unfolding report_to push
held-report message key c = elim (Bool-cases c.sending) [ inl s ↦ rw s refl | inr s ↦ rw s refl ]

grown :
    (message key : String) (c : RabbitmqChannel) (rest : List PendingMessage)
    → ((c.published ++ held (report_to message key c)) ++ rest)
      ≡ ((c.published ++ held c) ++ record { message = message; routing_key = key } ∷ rest)
grown message key c rest =
    ap (λ t. (c.published ++ t) ++ rest) (held-report message key c)
    ∙ ap (λ t. t ++ rest) (sym (append_assoc c.published (held c) _))
    ∙ append_assoc (c.published ++ held c) _ rest

-- What has been published and what waits are together what was reported, in the order of the reports.
run-total :
    (es : List Event) (c : RabbitmqChannel)
    → ((run es c).published ++ held (run es c))
      ≡ ((c.published ++ held c) ++ all_reported c.routing_key es)
unfolding run step report_default
run-total [] c = sym (append-nil _)
run-total (reported message ∷ es) c =
    run-total es (report_to message c.routing_key c)
    ∙ grown message c.routing_key c (all_reported c.routing_key es)
run-total (reported_to message key ∷ es) c =
    run-total es (report_to message key c) ∙ grown message key c (all_reported c.routing_key es)
run-total (round returns ∷ es) c =
    let r : Round returns c (write_round returns c) = write_round_lem returns c in
    run-total es (write_round returns c)
    ∙ ap (λ t. t ++ all_reported (write_round returns c).routing_key es) r.total
    ∙ ap (λ k. (c.published ++ held c) ++ all_reported k es) r.key
run-total (ended ∷ es) c = run-total es (shut_down c)

run-open :
    (es : List Event) (c : RabbitmqChannel)
    → any is_ended es ≡ false
    → c.server_shutdown ≡ false
    → (run es c).server_shutdown ≡ false
unfolding run step report_default report_to
run-open [] c h o = o
run-open (reported message ∷ es) c h o = run-open es (report_default message c) h o
run-open (reported_to message key ∷ es) c h o = run-open es (report_to message key c) h o
run-open (round returns ∷ es) c h o =
    run-open es (write_round returns c) h ((write_round_lem returns c).shut ∙ o)
run-open (ended ∷ es) c h o = absurd (ground arith)

run-left :
    (returns : List Bool) (c : RabbitmqChannel)
    → c.server_shutdown ≡ false
    → left (run (map round returns) c) ≤ left c - count_true returns
unfolding run step
run-left [] c o = omega arith
run-left (true ∷ bs) c o =
    let r : Round true c (write_round true c) = write_round_lem true c in
    ground (arith, r.progress o, run-left bs (write_round true c) (r.shut ∙ o))
run-left (false ∷ bs) c o =
    let r : Round false c (write_round false c) = write_round_lem false c in
    ground (arith, r.progress o, run-left bs (write_round false c) (r.shut ∙ o))

left_le : (c : RabbitmqChannel) → left c ≤ 2 * length (held c)
left_le c = elim (Bool-cases c.sending) [ inl s ↦ rw s (omega arith) | inr s ↦ rw s (omega arith) ]

none_held : (c : RabbitmqChannel) → left c ≤ 0 → held c ≡ []
none_held c h = elim (Bool-cases c.sending) [
  | inl s ↦ absurd (omega (arith, sym (ap number s)))
  | inr s ↦ rw s (none_left c.write_queue.q (omega arith))
]
  where
    none_left : (q : List PendingMessage) → 2 * length q ≤ 0 → q ≡ []
    none_left [] h = refl
    none_left (m ∷ ms) h = absurd (omega arith)

-- However the reports and the rounds of the thread that writes are interleaved, and wherever the broker
-- fails in them: as long as the channel is not shut down, what has been published and what waits are
-- together exactly what was reported, in the order of the reports. And once the thread has made
-- twice as many rounds without a failure as there are reports, with any failures in between, all of it
-- has been published.
pub message_write_loop_lem :
    (key : String) (es : List Event) (returns : List Bool)
    → any is_ended es ≡ false
    → 2 * length (all_reported key es) ≤ count_true returns
    → (((run es (new_channel key)).published ++ held (run es (new_channel key)))
        ≡ all_reported key es)
      × ((run (map round returns) (run es (new_channel key))).published ≡ all_reported key es)
unfolding run step
message_write_loop_lem key es returns h enough =
    let c : RabbitmqChannel = run es (new_channel key) in
    let d : RabbitmqChannel = run (map round returns) c in
    let total : (c.published ++ held c) ≡ all_reported key es = run-total es (new_channel key) in
    let spent : left d ≤ 0 = ground (
      arith,
      run-left returns c (run-open es (new_channel key) h refl),
      left_le c,
      sym (length-append c.published (held c)) ∙ ap length total,
    ) in
    (
      total,
      sym (append-nil d.published)
          ∙ ap (λ t. d.published ++ t) (sym (none_held d spent))
          ∙ run-total (map round returns) c
          ∙ ap (λ t. (c.published ++ held c) ++ t) (silent c.routing_key returns)
          ∙ append-nil _
          ∙ total,
    )
  where
    silent : (k : String) (bs : List Bool) → all_reported k (map round bs) ≡ []
    silent k [] = refl
    silent k (b ∷ bs) = silent k bs

-- ===== src/Worker/Complete/Fence.antt =====
-- `complete_batch`, seen from one delivery.
use mathlib.Core.List.{Memᴰ}
use mathlib.Core.List.Memᴰ.{head, tail}
use webhook_recovery.Prelude.{
  ℕ, ◌≡◌, refl, subst, ◌∙◌, sym, Bool, true, false, ◌&&◌, List, [], ◌∷◌, map, arith, leb, ◌==◌,
  if◌then◌else◌, filter, elem, update_row, Distinct, map-map, Memᴰ-map, elem-filter_own,
  elem-filter_absent, map_key, update_row_key,
}
use webhook_recovery.Core.Settings.{Settings}
use webhook_recovery.Core.Models.{Store, Delivery, Attempt}
use webhook_recovery.Worker.Complete.{
  Completion, is_ok, is_open, finish, is_delivered, is_failed, is_retry, held, is_row_of,
  deliver_row, fail_row, retry_row, settle, finish_attempts, complete_batch,
}

abbrev pub delivery_ids : List Completion → List ℕ
delivery_ids = map (λ c. c.claimed.delivery_id)

module _ (worker_id : ℕ) (f : Completion → Delivery → Delivery) where
  unheld_row :
      (cs : List Completion) (d : Delivery)
      → held worker_id d ≡ false
      → update_row (is_row_of worker_id) f cs d ≡ d
  unheld_row [] d h = refl
  unheld_row (c ∷ cs) d h = ground (arith, unheld_row cs d h)

  other_row :
      (p : Completion → Bool) (cs : List Completion) (d : Delivery)
      → elem d.id (delivery_ids cs) ≡ false
      → update_row (is_row_of worker_id) f (filter p cs) d ≡ d
  other_row p [] d h = refl
  other_row p (c ∷ cs) d h = ground (arith, other_row p cs d)

  elem-delivery_ids :
      (c : Completion) (cs : List Completion)
      → Memᴰ c cs
      → elem c.claimed.delivery_id (delivery_ids cs) ≡ true
  elem-delivery_ids c (x ∷ cs) (head e) = rw e (ground arith)
  elem-delivery_ids c (x ∷ cs) (tail m) = ground (arith, elem-delivery_ids c cs m)
  elem-delivery_ids c [] m = elim m [ ]

  -- Of a batch without repetition, only a delivery's own completion writes its row.
  own_row :
      (p : Completion → Bool) (cs : List Completion) (c : Completion) (d : Delivery)
      → Distinct (delivery_ids cs)
      → Memᴰ c cs
      → d.id ≡ c.claimed.delivery_id
      → (f c d).id ≡ d.id
      → update_row (is_row_of worker_id) f (filter p cs) d
        ≡ (if p c && held worker_id d then f c d else d)
  own_row p [] c d u m e k = elim m [ ]
  own_row p (x ∷ cs) c d u (head eq) e k =
      subst
        (λ z.
          d.id ≡ z.claimed.delivery_id
          → (f z d).id ≡ d.id
          → update_row (is_row_of worker_id) f (filter p (x ∷ cs)) d
            ≡ (if p z && held worker_id d then f z d else d))
        (sym eq) (λ e' k'. ground (arith, other_row p cs d, other_row p cs (f x d), u.0)) e k
  own_row p (x ∷ cs) c d u (tail m) e k =
      ground (arith, elem-delivery_ids c cs m, own_row p cs c d u.1 m e k, u.0)

module _ (settings : Settings) (worker_id now : ℕ) (completions : List Completion) where
  delivered_ids : List ℕ
  delivered_ids = delivery_ids (filter is_delivered completions)

  -- The three statements, on one row.
  abbrev pub settle_row : Delivery → Delivery
  settle_row d =
      update_row (is_row_of worker_id) (retry_row settings now)
        (filter (is_retry settings) completions)
        (update_row (is_row_of worker_id) (fail_row now) (filter (is_failed settings) completions) (
          if elem d.id (delivery_ids (filter is_delivered completions)) && held worker_id d
          then deliver_row now d
          else d))

  pub settle-map :
      (ds : List Delivery) → settle settings worker_id now completions ds ≡ map settle_row ds
  unfolding settle
  settle-map ds = map-map _ _ (map _ ds) ∙ map-map _ _ ds

  -- A row that the worker does not hold, in flight under its own lease, is left as it was.
  pub settle_row-unheld : (d : Delivery) → held worker_id d ≡ false → settle_row d ≡ d
  settle_row-unheld d h = ground (
    arith,
    unheld_row worker_id (fail_row now) (filter (is_failed settings) completions) d h,
    unheld_row worker_id (retry_row settings now) (filter (is_retry settings) completions) d h,
  )

  -- A row that no completion names is left as it was.
  pub settle_row-other :
      (d : Delivery) → elem d.id (delivery_ids completions) ≡ false → settle_row d ≡ d
  settle_row-other d h =
      rw
        (
          elem-filter_absent (λ (x : Completion). x.claimed.delivery_id) is_delivered d.id
              completions h,
          other_row worker_id (fail_row now) (is_failed settings) completions d h,
          other_row worker_id (retry_row settings now) (is_retry settings) completions d h,
        )
        refl

  -- What a completion means for the row of its delivery.
  abbrev pub outcome_row : Completion → Delivery → Delivery
  outcome_row c d =
      if is_ok c.outcome
      then deliver_row now d
      else if leb settings.max_attempts c.claimed.attempt_no
      then fail_row now c d
      else retry_row settings now c d

  abbrev first : Completion → Delivery → Delivery
  first c d = if is_delivered c && held worker_id d then deliver_row now d else d

  abbrev second : Completion → Delivery → Delivery
  second c d = if is_failed settings c && held worker_id d then fail_row now c d else d

  abbrev third : Completion → Delivery → Delivery
  third c d = if is_retry settings c && held worker_id d then retry_row settings now c d else d

  in_turn :
      (c : Completion) (d : Delivery)
      → held worker_id d ≡ true
      → third c (second c (first c d)) ≡ outcome_row c d
  in_turn c d h = ground arith

  first_id : (c : Completion) (d : Delivery) → (first c d).id ≡ d.id
  first_id c d = ground arith

  second_id : (c : Completion) (d : Delivery) → (second c d).id ≡ d.id
  second_id c d = ground arith

  -- A row in flight under the worker's own lease gets the outcome of its own completion, once: it
  -- is delivered, or fails at the retry cap, or goes back to pending with its backoff.
  pub settle_row-held :
      (c : Completion) (d : Delivery)
      → Distinct (delivery_ids completions)
      → Memᴰ c completions
      → d.id ≡ c.claimed.delivery_id
      → held worker_id d ≡ true
      → settle_row d ≡ outcome_row c d
  settle_row-held c d distinct m e h =
      let delivered : elem d.id (delivery_ids (filter is_delivered completions)) ≡ is_delivered c =
        rw e (
          elem-filter_own (λ (x : Completion). x.claimed.delivery_id) is_delivered completions c
            distinct m) in
      let d₁ = first c d in
      let d₂ = second c d₁ in
      rw
        (
          delivered,
          own_row worker_id (fail_row now) (is_failed settings) completions c d₁ distinct m
              (first_id c d ∙ e) refl,
          own_row worker_id (retry_row settings now) (is_retry settings) completions c d₂ distinct m
              (second_id c d₁ ∙ first_id c d ∙ e) refl,
        )
        (in_turn c d h)

  pub complete_batch-deliveries :
      (store : Store)
      → (complete_batch settings worker_id completions now store).deliveries
        ≡ map settle_row store.deliveries
  unfolding complete_batch
  complete_batch-deliveries store = settle-map store.deliveries

  -- A completion counts no attempt.
  pub settle_row-tries : (d : Delivery) → (settle_row d).attempt_count ≡ d.attempt_count
  settle_row-tries d =
      let tries = λ (x : Delivery). x.attempt_count in
      update_row_key tries (is_row_of worker_id) (retry_row settings now) (λ p x. refl)
        (filter (is_retry settings) completions) _
      ∙ update_row_key tries (is_row_of worker_id) (fail_row now) (λ p x. refl)
          (filter (is_failed settings) completions) _
      ∙ ground arith

  pub settle_row-id : (d : Delivery) → (settle_row d).id ≡ d.id
  settle_row-id d =
      update_row_key (λ (x : Delivery). x.id) (is_row_of worker_id) (retry_row settings now)
        (λ p x. refl) (filter (is_retry settings) completions) _
      ∙ update_row_key (λ (x : Delivery). x.id) (is_row_of worker_id) (fail_row now) (λ p x. refl)
          (filter (is_failed settings) completions) _
      ∙ ground arith

  pub complete_batch-attempted :
      (store : Store)
      → map (λ a. a.delivery_id) (complete_batch settings worker_id completions now store).attempts
        ≡ map (λ a. a.delivery_id) store.attempts
  unfolding complete_batch finish_attempts
  complete_batch-attempted store =
      map_key (λ (a : Attempt). a.delivery_id) _
        (update_row_key (λ (a : Attempt). a.delivery_id)
          (λ (c : Completion) (a : Attempt). a.id == c.claimed.attempt_id && is_open a) (finish now)
          (λ p x. refl) completions)
        store.attempts

  pub complete_batch-next :
      (store : Store)
      → (complete_batch settings worker_id completions now store).next_delivery_id
        ≡ store.next_delivery_id
  unfolding complete_batch
  complete_batch-next store = refl

  closed_attempt :
      (cs : List Completion) (a : Attempt)
      → is_open a ≡ false
      → update_row (λ c a. a.id == c.claimed.attempt_id && is_open a) (finish now) cs a ≡ a
  closed_attempt [] a h = refl
  closed_attempt (c ∷ cs) a h = ground (arith, closed_attempt cs a)

  -- An attempt that is closed already stays as it was closed.
  pub complete_batch_closed :
      (store : Store) (a : Attempt)
      → Memᴰ a store.attempts
      → is_open a ≡ false
      → Memᴰ a (complete_batch settings worker_id completions now store).attempts
  unfolding complete_batch
  complete_batch_closed store a m h =
      subst (λ x. Memᴰ x (finish_attempts now completions store.attempts))
        (closed_attempt completions a h)
        (Memᴰ-map
          (update_row (λ c a. a.id == c.claimed.attempt_id && is_open a) (finish now) completions) a
          store.attempts m)

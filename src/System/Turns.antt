-- ===== src/System/Turns.antt =====
-- What one transaction does to one delivery.
use webhook_recovery.Prelude.{ℕ, ◌≡◌, refl, ap, ◌∙◌, ◌⊎◌, inl, inr, Bool, false}
use webhook_recovery.Core.Enums.{is_in_flight}
use webhook_recovery.Core.Settings.{Settings}
use webhook_recovery.Core.Models.{Delivery}
use webhook_recovery.Worker.Complete.{held}
use webhook_recovery.System.Rows.{Edge, Course, stays, join, one_move}

-- The delivery goes along its moves, and no worker but the transaction's `own` ones is given it.
pub record Turn (settings : Settings) (own : ℕ → Bool) (d d' : Delivery) : Type 0 where
  pub path : Course settings d d'
  pub same : d'.id ≡ d.id
  pub spares : (worker_id : ℕ) → own worker_id ≡ false → (d' ≡ d) ⊎ (held worker_id d' ≡ false)

abbrev pub nobody : ℕ → Bool
nobody worker_id = false

-- The turn of a transaction that leases nothing.
abbrev pub Idle : Settings → Delivery → Delivery → Type 0
Idle settings d d' = Turn settings nobody d d'

spares_both :
    (d e f : Delivery) (worker_id : ℕ)
    → (e ≡ d) ⊎ (held worker_id e ≡ false)
    → (f ≡ e) ⊎ (held worker_id f ≡ false)
    → (f ≡ d) ⊎ (held worker_id f ≡ false)
spares_both d e f w p (inr h) = inr h
spares_both d e f w (inl k) (inl h) = inl (h ∙ k)
spares_both d e f w (inr k) (inl h) = inr (ap (held w) h ∙ k)

module _ {settings : Settings} {own : ℕ → Bool} where
  pub rests : (d : Delivery) → Turn settings own d d
  rests d = record { path = stays; same = refl; spares = λ w h. inl refl }

  -- A move to a row that is not in flight.
  pub quiet :
      (d d' : Delivery)
      → Edge settings d d'
      → d'.id ≡ d.id
      → is_in_flight d'.state ≡ false
      → Turn settings own d d'
  quiet d d' e same still = record {
    path = one_move e;
    same = same;
    spares = λ w h. inr (rw still refl);
  }

  pub both_turns :
      (d e f : Delivery) → Turn settings own d e → Turn settings own e f → Turn settings own d f
  both_turns d e f p q = record {
    path = join p.path q.path;
    same = q.same ∙ p.same;
    spares = λ w h. spares_both d e f w (p.spares w h) (q.spares w h);
  }

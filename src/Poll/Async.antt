-- ===== src/Poll/Async.antt =====
-- Sequencing of `.await`s in an `async fn` over one state.
use pvcli.Poll.{Error, Outcome, done, failed, stuck}

abbrev pub Async : Type 0 → Type 0 → Type 0
Async S A = S → Outcome S A

abbrev pub pure : {S A : Type 0} → A → Async S A
pure a s = done a s

abbrev pub throw : {S A : Type 0} → Error → Async S A
throw e s = failed e s

infixl 5 ◌>>=◌
abbrev pub ◌>>=◌ : {S A B : Type 0} → Async S A → (A → Async S B) → Async S B
◌>>=◌ m f s = elim (m s) [ done a s' ↦ f a s' | failed e s' ↦ failed e s' | stuck ↦ stuck ]

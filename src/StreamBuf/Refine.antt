-- ===== src/StreamBuf/Refine.antt =====
-- What it means that a function on a StreamBuf implements one on the flat byte string, and how
-- this is carried through `.await` and through the sequence of an `async fn`.
use mathlib.Core.Path.{subst}
use pvcli.Prelude.{ℕ, zero, suc, ◌≤◌, ◌<◌, ◌≡◌, refl, sym, List, [], ◌∷◌, Bytes, length, arith}
use pvcli.Poll.{Error, Polled, ready, fail, pending, Outcome, done, failed, stuck, await}
use pvcli.Poll.Async
use pvcli.Poll.Async.{Async}
use pvcli.StreamBuf.{StreamBuf, Event, not_ready, item, broken, run}
use pvcli.StreamBuf.Content.{content}
use pvcli.StreamBuf.Flat
use pvcli.StreamBuf.Flat.{Flat, Reply, got, refused}

-- A stream that never fails and yields no empty chunk. It may be `Pending` anywhere.
abbrev pub IsClean : List Event → Type 0
IsClean [] = Unit {0}
IsClean (not_ready ∷ rest) = IsClean rest
IsClean (item b ∷ rest) = (0 < length b) × IsClean rest
IsClean (broken e ∷ rest) = ⊥

-- The object stands for the byte string `bs`: its stream is clean, and all that it will deliver
-- fits under its size limit.
pub record Represents (s : StreamBuf) (bs : Bytes) : Type 0 where
  pub clean : IsClean s.stream
  pub bytes : content s ≡ bs
  pub small : length bs ≤ s.max_buf_size

-- The answer of a poll agrees with the reply `r` on `bs`; a `Pending` uses up an entry.
abbrev pub PolledAs : {A : Type 0} → Reply A → Bytes → ℕ → Polled StreamBuf A → Type 0
PolledAs r bs n (ready a s) =
    (rest : Bytes) × (r ≡ got a rest) × Represents s rest × (length s.stream ≤ n)
PolledAs r bs n (fail e s) = r ≡ refused e
PolledAs r bs n (pending s) = Represents s bs × (length s.stream < n)

-- The same for an awaited result.
abbrev pub EndsAs : {A : Type 0} → Reply A → Outcome StreamBuf A → Type 0
EndsAs r (done a s) = (rest : Bytes) × (r ≡ got a rest) × Represents s rest
EndsAs r (failed e s) = r ≡ refused e
EndsAs r stuck = r ≡ Flat.stuck

abbrev pub PollImplements : {A : Type 0} → (StreamBuf → Polled StreamBuf A) → Flat A → Type 0
PollImplements p f =
    (s : StreamBuf) (bs : Bytes) → Represents s bs → PolledAs (f bs) bs (length s.stream) (p s)

abbrev pub Implements : {A : Type 0} → Async StreamBuf A → Flat A → Type 0
Implements m f = (s : StreamBuf) (bs : Bytes) → Represents s bs → EndsAs (f bs) (m s)

await_step :
    {A : Type 0} (r : Reply A) (bs : Bytes) (n : ℕ) (q : Polled StreamBuf A)
    (later : Async StreamBuf A)
    → PolledAs r bs n q
    → ((s : StreamBuf) → Represents s bs → length s.stream < n → EndsAs r (later s))
    → EndsAs r (elim q [ ready a s ↦ done a s | fail e s ↦ failed e s | pending s ↦ later s ])
await_step r bs n (ready a s) later (rest, e, h, le) k = (rest, e, h)
await_step r bs n (fail e s) later h k = h
await_step r bs n (pending s) later (h, lt) k = k s h lt

await-EndsAs :
    {A : Type 0} (p : StreamBuf → Polled StreamBuf A) (f : Flat A)
    → PollImplements p f
    → (fuel : ℕ) (s : StreamBuf) (bs : Bytes) → length s.stream < fuel
    → Represents s bs
    → EndsAs (f bs) (await fuel p s)
unfolding await
await-EndsAs p f h zero s bs lt r = absurd (omega arith)
await-EndsAs p f h (suc fuel) s bs lt r =
    await_step (f bs) bs _ (p s) (await fuel p) (h s bs r)
      (λ s' r' lt'. await-EndsAs p f h fuel s' bs (omega arith) r')

-- An awaited poll function implements what its polls implement.
pub run-Implements :
    {A : Type 0} (p : StreamBuf → Polled StreamBuf A) (f : Flat A)
    → PollImplements p f
    → Implements (run p) f
run-Implements p f h s bs r = await-EndsAs p f h _ s bs (omega arith) r

bind_step :
    {A B : Type 0} (r : Reply A) (q : Outcome StreamBuf A) (k : A → Async StreamBuf B)
    (g : A → Flat B)
    → EndsAs r q
    → ((a : A) → Implements (k a) (g a))
    → EndsAs
        (Flat.and_then g r)
        (elim q [ done a s ↦ k a s | failed e s ↦ failed e s | stuck ↦ stuck ])
bind_step r (done a s) k g (rest, e, h) imp = rw e (imp a s rest h)
bind_step r (failed e s) k g h imp = rw h refl
bind_step r stuck k g h imp = rw h refl

-- Sequencing keeps the refinement.
pub >>=-Implements :
    {A B : Type 0} (m : Async StreamBuf A) (f : Flat A) (k : A → Async StreamBuf B) (g : A → Flat B)
    → Implements m f
    → ((a : A) → Implements (k a) (g a))
    → Implements (Async.◌>>=◌ m k) (Flat.◌>>=◌ f g)
>>=-Implements m f k g h imp s bs r = bind_step (f bs) (m s) k g (h s bs r) imp

pub pure-Implements : {A : Type 0} (a : A) → Implements (Async.pure a) (Flat.pure a)
pure-Implements a s bs r = (bs, refl, r)

pub throw-Implements : {A : Type 0} (e : Error) → Implements {A = A} (Async.throw e) (Flat.throw e)
throw-Implements e s bs r = refl

-- A future that agrees with a reply that is a value gives that value and leaves what the reply left.
pub ended_got :
    {A : Type 0} (a : A) (rest : Bytes) (q : Outcome StreamBuf A)
    → EndsAs (got a rest) q
    → (s : StreamBuf) × (q ≡ done a s) × Represents s rest
ended_got a rest (done x s) (rest', e, rep) =
    let same : rest ≡ rest' = cc in (s, cc, subst (Represents s) (sym same) rep)
ended_got a rest (failed x s) e = cc
ended_got a rest stuck e = cc

-- ===== src/Sink/Rules.antt =====
-- Rules for functions that write to a sink: what a sequence of writes appends.
use burst.Base.{ℕ, ◌≡◌, List, [], ◌++◌, append-nil, arith}
use burst.Sink.{Env, Outcome, ok, ◌>>=◌, Sink, burst_writer_write, count_padding}
use burst.Sink.Buffer.{
  Appends, stream, IsValid, Wrote, burst_writer_write-Wrote, Wrote-append, >>=-eq-ok,
}
use mathlib.Core.Path.{subst}

-- Every successful run of `m` from a valid sink appends the bytes of `src`.
abbrev pub Writes : (Sink → Outcome Sink) → List ℕ → Type 0
Writes m src = (s t : Sink) → IsValid s → m s ≡ ok t → Wrote src s t

pub Writes-bind :
    (m k : Sink → Outcome Sink) (a b : List ℕ)
    → Writes m a
    → Writes k b
    → Writes (λ s. m s >>= k) (a ++ b)
Writes-bind m k a b p q s u v e = go (>>=-eq-ok (m s) k e)
  where
    go : (t : Sink) × (m s ≡ ok t) × (k t ≡ ok u) → Wrote (a ++ b) s u
    go (t, first, second) =
        let w : Wrote a s t = p s t v first in Wrote-append a b s t u w (q t u w.valid second)

-- The last step adds no bytes.
pub Writes-last :
    (m k : Sink → Outcome Sink) (a : List ℕ) → Writes m a → Writes k [] → Writes (λ s. m s >>= k) a
Writes-last m k a p q = subst (Writes (λ s. m s >>= k)) (append-nil a) (Writes-bind m k a [] p q)

-- Counting padding bytes does not touch the stream.
pub count_padding-Writes : (n : ℕ) → Writes (λ s. ok (count_padding n s)) []
count_padding-Writes n s t v e = ground (arith, append-nil (stream s))

pub Writes-counted :
    (n : ℕ) (k : Sink → Outcome Sink) (b : List ℕ)
    → Writes k b
    → Writes (λ s. k (count_padding n s)) b
Writes-counted n k b q s t v e =
    let w : Wrote b (count_padding n s) t =
      q (count_padding n s) t (record { room = v.room; counted = v.counted }) e in
    record { valid = w.valid; appended = w.appended }

pub write-Writes :
    (env : Env) (appends : Appends env) (src : List ℕ) → Writes (burst_writer_write env src) src
write-Writes env appends src s t v e = burst_writer_write-Wrote env appends src s t v e

-- ===== src/Kafka/Consumer/Isolation.antt =====
-- A call for one partition leaves the entries of every other partition alone.
use nodejs_basics.Prelude.{
  true, refl, Option, List, none, some, ◌≡◌, ◌≢◌, lookup, lookup-insert_ne, lookup-erase_ne, arith,
}
use nodejs_basics.Kafka.Consumer.{Partition, partition_key, Attempt, Payload, Failure, Runner, Env}
use nodejs_basics.Kafka.Consumer.Handle.{mark_attempts, handle_message}

-- The entries of `q` are those that they were.
abbrev pub IsUntouched : Partition → Runner → Runner → Type 0
IsUntouched q r s =
    (lookup q s.failures ≡ lookup q r.failures) × (lookup q s.attempts ≡ lookup q r.attempts)

mark-IsUntouched :
    (p q : Partition) (o : Option Attempt) (m : List (Partition × Attempt))
    → q ≢ p
    → lookup q (mark_attempts p o m) ≡ lookup q m
mark-IsUntouched p q none m h = refl
mark-IsUntouched p q (some a) m h =
    ground (arith, lookup-insert_ne p q (record a { stuck = true }) m)

-- Handling a message of one partition, however it ends, changes neither the retry count nor the
-- counted attempts of another.
pub handle_message-IsUntouched :
    (r : Runner) (env : Env) (p : Payload) (o : Option Failure) (q : Partition)
    → q ≢ p.source
    → IsUntouched q r (handle_message r env p o).runner
unfolding handle_message
handle_message-IsUntouched r env p none q h = grind (arith, lookup-insert_ne, lookup-erase_ne)
handle_message-IsUntouched r env p (some err) q h =
    grind (arith, lookup-insert_ne, lookup-erase_ne, mark-IsUntouched)

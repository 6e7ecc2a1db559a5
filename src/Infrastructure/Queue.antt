-- ===== src/Infrastructure/Queue.antt =====
-- src/infrastructure/queue: the message type of base.py and the queue of memory_queue.py.
use prism_agent.Prelude.{String, Bool, Option, none, some, List, [], ◌∷◌, ◌++◌, is_empty}
use prism_agent.Domain.Events.{EventEnvelope}

pub record QueueMessage : Type 0 where
  pub message_id : String
  pub envelope : EventEnvelope
  pub receipt : Option String

pub record MemoryQueue : Type 0 where
  pub messages : List QueueMessage
  pub failed : List (QueueMessage × String)
  pub acked : List String

abbrev pub empty : MemoryQueue
empty = record { messages = []; failed = []; acked = [] }

-- `fresh_id` is the `uuid4` of the message.
unfoldable pub enqueue : String → EventEnvelope → MemoryQueue → MemoryQueue
enqueue fresh_id envelope queue = record queue {
  messages =
      queue.messages ++ record { message_id = fresh_id; envelope = envelope; receipt = none } ∷ [];
}

abbrev pub pop : List QueueMessage → MemoryQueue → Option QueueMessage × MemoryQueue
pop [] queue = (none, queue)
pop (message ∷ messages) queue = (some message, record queue { messages = messages })

unfoldable pub dequeue : MemoryQueue → Option QueueMessage × MemoryQueue
dequeue queue = pop queue.messages queue

unfoldable pub ack : QueueMessage → MemoryQueue → MemoryQueue
ack message queue = record queue { acked = queue.acked ++ message.message_id ∷ [] }

unfoldable pub fail : QueueMessage → String → MemoryQueue → MemoryQueue
fail message reason queue = record queue { failed = queue.failed ++ (message, reason) ∷ [] }

unfoldable pub queue_is_empty : MemoryQueue → Bool
queue_is_empty queue = is_empty queue.messages

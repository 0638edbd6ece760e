-- ===== src/Queue/Memory.antt =====
-- The nodes of threadsafe_queue.h in memory.
pub mod Seg
use ubuntu_projects.Base.{ℕ, Option, none, ◌==◌, if◌then◌else◌}

-- what `sizeof` says of the items
pub record Sized (A : Type 0) : Type 0 where
  pub size_of : ℕ

-- `m_next` stands 8 bytes behind the start of `m_storage`, whatever the items are: the type of
-- `m_storage` is `std::aligned_storage` itself, with 1 byte, and not its member `type`.
abbrev pub room : ℕ
room = 8

-- `m_storage` with `initialized`, and `m_next`, where 0 stands for no node. They are apart for items
-- that have room in front of `m_next`, and only such items are ever stored.
pub record Node (A : Type 0) : Type 0 where
  pub stored : Option A
  pub next : ℕ

abbrev pub node : {A : Type 0} → Option A → ℕ → Node A
node d n = record { stored = d; next = n }

-- what stands at each address
abbrev pub Nodes : Type 0 → Type 0
Nodes A = ℕ → Option (Node A)

module _ {A : Type 0} where
  unfoldable pub write : Nodes A → ℕ → Option (Node A) → Nodes A
  write h p n q = if p == q then n else h q

-- ===== src/Data/HeaderContext.antt =====
-- src/hornetlib/model/header_context.h: a header with its hash, its work, the work of its chain and its
-- height. `none` is an exception of the computation of work.
use hornet.Common.{ℕ, zero, suc, Bytes, Option, none, some}
use hornet.Data.ChainTree.{Parts}
use hornet.Protocol.Header.{BlockHeader, compute_hash, header_work}
use hornet.Protocol.Target.{work_add, work_sub}
use hornet.Protocol.Transaction.{Hash}
use hornet.Uint.{Words, ◌>>=◌}

pub record HeaderContext : Type 0 where
  pub header : BlockHeader
  pub hash : Hash
  pub local_work : Words
  pub total_work : Words
  pub height : ℕ

abbrev pub header_parts : Parts BlockHeader HeaderContext
header_parts = record { data_of = λ c. c.header; hash_of = λ c. c.hash; height_of = λ c. c.height }

-- Extend, with the hash given.
unfoldable pub extend_with : HeaderContext → BlockHeader → Hash → Option HeaderContext
extend_with c next hash = header_work next >>= λ work. some (record {
  header = next;
  hash = hash;
  local_work = work;
  total_work = work_add c.total_work work;
  height = suc c.height;
})

-- Rewind, from a height over the first: below it there is no element.
unfoldable pub rewind : HeaderContext → BlockHeader → Option HeaderContext
rewind c prev = elim c.height [
  | zero ↦ none
  | suc h ↦ header_work prev >>= λ work. some (record {
    header = prev;
    hash = c.header.prev_block;
    local_work = work;
    total_work = work_sub c.total_work c.local_work;
    height = h;
  })
]

module _ (double_sha256 : Bytes → Hash) where
  unfoldable pub genesis : BlockHeader → Option HeaderContext
  unfolding compute_hash
  genesis header = header_work header >>= λ work. some (record {
    header = header;
    hash = compute_hash double_sha256 header;
    local_work = work;
    total_work = work;
    height = 0;
  })

  unfoldable pub extend : HeaderContext → BlockHeader → Option HeaderContext
  unfolding extend_with compute_hash
  extend c next = extend_with c next (compute_hash double_sha256 next)

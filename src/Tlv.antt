-- ===== src/Tlv.antt =====
-- tlv.h and tlv.c: the state of the BER-TLV parser and generator, and the operations that the
-- reader (Read) and the writer (Write) share. A `size_t` sum or difference wraps at 2 ^ 64.
pub mod Read
pub mod Write
pub mod Inv
pub mod RoundTrip
use pivy.Prelude.{
  ℕ, ◌+◌, List, [], ◌∷◌, Bool, true, false, ◌||◌, none, some, get_elem?, replicate, leb, add_size,
  sub_size,
}
use pivy.Errf.{Errf, errf, no_error}
use pivy.Outcome.{Outcome, ok, abort, fault, M, ◌>>=◌}

abbrev pub max_apdu_size : ℕ
max_apdu_size = 16384

-- `struct tlv_context`, but for `tc_next`: the list that the context stands in is the chain.
pub record TlvContext : Type 0 where
  pub tc_begin : ℕ
  pub tc_end : ℕ
  pub tc_lenptr : ℕ
  pub tc_depth : ℕ

-- `struct tlv_state`. `ts_ctxs` is the chain from `ts_now` down to the context above `ts_root`, so
-- that `ts_now` is its first element, or the root. The memory at `ts_buf` is a list of bytes.
pub record TlvState : Type 0 where
  pub ts_root : TlvContext
  pub ts_ctxs : List TlvContext
  pub ts_buf : List ℕ
  pub ts_pos : ℕ
  pub ts_freebuf : Bool
  pub ts_debug : Bool

abbrev pub Tlv : Type 0 → Type 0
Tlv = M TlvState

-- The context on top of a chain over `root`.
abbrev pub top : TlvContext → List TlvContext → TlvContext
top root [] = root
top root (tc ∷ tcs) = tc

abbrev pub ts_now : TlvState → TlvContext
ts_now ts = top ts.ts_root ts.ts_ctxs

-- `errf("LengthError", NULL, …)`.
abbrev pub length_error : Errf
length_error = errf "LengthError" no_error

unfoldable pub tlv_init : List ℕ → ℕ → ℕ → TlvState
tlv_init buf offset len = record {
  ts_root = record { tc_begin = offset; tc_end = add_size offset len; tc_lenptr = 0; tc_depth = 0 };
  ts_ctxs = [];
  ts_buf = buf;
  ts_pos = offset;
  ts_freebuf = false;
  ts_debug = false;
}

unfoldable pub tlv_enable_debug : TlvState → TlvState
tlv_enable_debug ts = record ts { ts_debug = true }

-- `calloc(1, n)`.
unfoldable pub calloc : ℕ → List ℕ
calloc n = replicate n 0

unfoldable pub tlv_init_write : TlvState
tlv_init_write = record {
  ts_root = record { tc_begin = 0; tc_end = max_apdu_size; tc_lenptr = 0; tc_depth = 0 };
  ts_ctxs = [];
  ts_buf = calloc max_apdu_size;
  ts_pos = 0;
  ts_freebuf = true;
  ts_debug = false;
}

unfoldable pub tlv_at_root_end : TlvState → Bool
tlv_at_root_end ts = leb ts.ts_root.tc_end ts.ts_pos

unfoldable pub tlv_at_end : TlvState → Bool
unfolding tlv_at_root_end
tlv_at_end ts = tlv_at_root_end ts || leb (ts_now ts).tc_end ts.ts_pos

unfoldable pub tlv_root_rem : TlvState → ℕ
tlv_root_rem ts = sub_size ts.ts_root.tc_end ts.ts_pos

unfoldable pub tlv_rem : TlvState → ℕ
tlv_rem ts = sub_size (ts_now ts).tc_end ts.ts_pos

unfoldable pub tlv_len : TlvState → ℕ
tlv_len ts = ts.ts_pos

unfoldable pub tlv_ctx_push : TlvContext → TlvState → TlvState
tlv_ctx_push tc ts = record ts {
  ts_ctxs = record tc { tc_depth = (ts_now ts).tc_depth + 1 } ∷ ts.ts_ctxs;
}

-- `VERIFY(tc != ts->ts_root)`; the cases of a chain, for the function below.
abbrev pub pop_ctxs : TlvState → List TlvContext → Outcome TlvState TlvContext
pop_ctxs ts [] = abort
pop_ctxs ts (tc ∷ tcs) = ok tc (record ts { ts_ctxs = tcs })

unfoldable pub tlv_ctx_pop : Tlv TlvContext
tlv_ctx_pop ts = pop_ctxs ts ts.ts_ctxs

-- `buf[ts->ts_pos++]` as a value.
unfoldable pub next_byte : Tlv ℕ
next_byte ts = elim (get_elem? ts.ts_buf ts.ts_pos) [
  | none ↦ fault
  | some d ↦ ok d (record ts { ts_pos = add_size ts.ts_pos 1 })
]

-- `bcopy(&ts->ts_buf[ts->ts_pos], dest, len); ts->ts_pos += len;`, byte for byte.
unfoldable pub next_bytes : ℕ → Tlv (List ℕ)
unfolding next_byte
next_bytes ℕ.zero = λ ts. ok [] ts
next_bytes (ℕ.suc len) = do b ← next_byte; bs ← next_bytes len; λ ts. ok (b ∷ bs) ts

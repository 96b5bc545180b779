-- ===== src/Adapter/Tail.antt =====
-- stderrTail of internal/adapter/helpers.go: a writer that keeps the end of what it was given.
pub mod Kept
use aiclibridge.Prelude.{
  ℕ, ◌-◌, Text, List, [], ◌∷◌, ◌++◌, if◌then◌else◌, ltb, drop, length, Bool, true, false,
  trim_space,
}
use aiclibridge.Prelude.Int.{ℤ, pos, ltb_ℤ, pos_part}

abbrev stderr_tail_bytes : ℕ
stderr_tail_bytes = 2048

pub record StderrTail : Type 0 where
  pub max : ℕ
  pub buf : Text

unfoldable pub new_stderr_tail : ℤ → StderrTail
new_stderr_tail max = record {
  max = if ltb_ℤ (pos 0) max then pos_part max else stderr_tail_bytes;
  buf = [];
}

-- s.buf[len(s.buf)-s.max:], if it is longer than that
abbrev pub cut_front : ℕ → Text → Text
cut_front max buf = if ltb max (length buf) then drop (length buf - max) buf else buf

-- The Boolean: the inner writer takes the bytes.
unfoldable pub write : Bool → Text → StderrTail → StderrTail
write true p s = record s { buf = cut_front s.max (s.buf ++ p) }
write false p s = s

unfoldable pub tail : StderrTail → Text
unfolding trim_space
tail s = trim_space s.buf

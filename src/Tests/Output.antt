-- ===== src/Tests/Output.antt =====
-- Tests of internal/exactwrite and internal/safeoutput.
use verify.Text.Utf8.{decode_rune}
use verify.Prelude.{refl, ◌≡◌, All, arith, length, true, ◌++◌, ◌∷◌}
use verify.Text.{codes, Bytes}
use verify.ExactWrite.{Writer, bytes}
use verify.ExactWrite.Delivery.{bytes_complete, IsPrefixOf, bytes-prefix}
use verify.Tests.{pairs, ascii, pairs-IsConforming}
use verify.SafeOutput.{
  diagnostic, diagnostic_bytes, safe, classify, workflow_command, escaped_byte,
  next_line_whitespace,
}
use verify.SafeOutput.Renderer.{
  append, append_byte, append_bytes, append_escaped, append_escaped_byte, flush, write,
  write_escaped, write_escaped_from,
}
use verify.SafeOutput.Renderer.Write.{IsTextByte, safe-write, shown, write_complete}
use verify.SafeOutput.Safety.{IsByte}
use verify.SafeOutput.Diagnostic.{IsLineByte, diagnostic-line, length-diagnostic, safe-diagnostic}

bytes_complete_example :
    Writer.received pairs (bytes pairs (codes "> ") (codes "report")).1 ≡ codes "> report"
unfolding bytes
bytes_complete_example = bytes_complete pairs (codes "> ") (codes "report") refl

bytes-prefix_example :
    IsPrefixOf
      (codes "> ")
      (Writer.received pairs (bytes pairs (codes "> ") (codes "report")).1)
      (codes "report")
      (bytes pairs (codes "> ") (codes "report")).0
bytes-prefix_example = bytes-prefix pairs pairs-IsConforming (codes "> ") (codes "report")

-- A workflow command with an escape character in it.
abbrev command : Bytes
command = 27 ∷ codes "##["

command-IsByte : All IsByte command
command-IsByte = (omega arith, (omega arith, (omega arith, (omega arith, tt))))

safe-write_example :
    (text : Bytes) × (Writer.received pairs (write pairs ascii (codes "> ") command).1
      ≡ codes "> " ++ text)
    × (safe ascii text ≡ true)
    × All IsTextByte text
unfolding write safe workflow_command classify next_line_whitespace decode_rune write_escaped
    write_escaped_from append append_escaped append_escaped_byte escaped_byte append_byte
    append_bytes flush bytes
safe-write_example = safe-write pairs ascii (codes "> ") command command-IsByte refl

write_complete_example :
    Writer.received pairs (write pairs ascii (codes "> ") command).1
    ≡ codes "> " ++ shown ascii command
unfolding write safe workflow_command classify next_line_whitespace decode_rune write_escaped
    write_escaped_from append append_escaped append_escaped_byte escaped_byte append_byte
    append_bytes flush bytes
write_complete_example = write_complete pairs ascii (codes "> ") command refl

safe-diagnostic_example : safe ascii (diagnostic ascii command) ≡ true
safe-diagnostic_example = safe-diagnostic ascii command command-IsByte

length-diagnostic_example : diagnostic_bytes ascii command ≡ length (diagnostic ascii command)
length-diagnostic_example = length-diagnostic ascii command

diagnostic-line_example : All IsLineByte (diagnostic ascii command)
diagnostic-line_example = diagnostic-line ascii command command-IsByte

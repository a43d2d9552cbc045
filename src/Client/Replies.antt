-- ===== src/Client/Replies.antt =====
-- A reply is a message in the wire format.
use cabinet.Base.{Bytes, List, [], append-nil, append_assoc, ◌++◌, ◌∙◌, ◌∷◌, ◌≡◌}
use cabinet.Client.{Client, append_parts}
use cabinet.ProtocolStream.{ProtocolStream, append_reply_body}
use cabinet.ProtocolStream.Frame.{parts_text}

pub output-append_parts :
    (parts : List Bytes) (s : ProtocolStream)
    → (append_parts parts s).output_buf ≡ s.output_buf ++ parts_text parts
unfolding append_parts append_reply_body parts_text
output-append_parts [] s = rw append-nil
output-append_parts (part ∷ parts) s = output-append_parts parts _ ∙ rw append_assoc

-- ===== src/Streams/Channels.antt =====
-- The chunks of two channels that are mixed, src/handlers/exec.rs.
use nobase_agent.Prelude.{String, ◌≡◌, refl, ◌∙◌, ap, sym, List, [], ◌∷◌, ◌++◌, map}
use nobase_agent.Proto.Methods.{StreamChannel, stdout, stderr}
use nobase_agent.FileSystem.{Bytes, append_nil}
use nobase_agent.Streams.{joined_chunks}
use nobase_agent.Streams.Prefix.{append_assoc}

-- The chunks of one channel, in order.
abbrev pub on_channel : StreamChannel → List (StreamChannel × Bytes) → List Bytes
on_channel channel [] = []
on_channel stdout ((stdout, c) ∷ chunks) = c ∷ on_channel stdout chunks
on_channel stdout ((stderr, c) ∷ chunks) = on_channel stdout chunks
on_channel stderr ((stdout, c) ∷ chunks) = on_channel stderr chunks
on_channel stderr ((stderr, c) ∷ chunks) = c ∷ on_channel stderr chunks

joined_chunks-append :
    (a b : List Bytes) → joined_chunks (a ++ b) ≡ joined_chunks a ++ joined_chunks b
joined_chunks-append [] b = refl
joined_chunks-append (c ∷ a) b =
    ap (λ x. c ++ x) (joined_chunks-append a b)
    ∙ sym (append_assoc c (joined_chunks a) (joined_chunks b))

pub on_channel-append :
    (channel : StreamChannel) (a b : List (StreamChannel × Bytes))
    → on_channel channel (a ++ b) ≡ on_channel channel a ++ on_channel channel b
on_channel-append channel [] b = refl
on_channel-append stdout ((stdout, c) ∷ a) b = ap (λ x. c ∷ x) (on_channel-append stdout a b)
on_channel-append stdout ((stderr, c) ∷ a) b = on_channel-append stdout a b
on_channel-append stderr ((stdout, c) ∷ a) b = on_channel-append stderr a b
on_channel-append stderr ((stderr, c) ∷ a) b = ap (λ x. c ∷ x) (on_channel-append stderr a b)

-- One more chunk on a channel moves what is left.
pub add_chunk :
    (chunks c : List Bytes) (d rest : Bytes)
    → c ≡ d ∷ []
    → joined_chunks (chunks ++ c) ++ rest ≡ joined_chunks chunks ++ (d ++ rest)
add_chunk chunks c d rest e =
    ap (λ x. joined_chunks (chunks ++ x) ++ rest) e
    ∙ ap (λ x. x ++ rest) (joined_chunks-append chunks (d ∷ []))
    ∙ append_assoc (joined_chunks chunks) (d ++ []) rest
    ∙ ap (λ x. joined_chunks chunks ++ (x ++ rest)) (append_nil d)

pub no_chunk :
    (chunks c : List Bytes) (rest : Bytes)
    → c ≡ []
    → joined_chunks (chunks ++ c) ++ rest ≡ joined_chunks chunks ++ rest
no_chunk chunks c rest e =
    ap (λ x. x ++ rest)
      (joined_chunks-append chunks c
        ∙ ap (λ x. joined_chunks chunks ++ joined_chunks x) e
        ∙ append_nil (joined_chunks chunks))

pub text_nil : (a : List String) → a ++ [] ≡ a
text_nil [] = refl
text_nil (x ∷ a) = ap (λ y. x ∷ y) (text_nil a)

pub map_append :
    (f : StreamChannel × Bytes → String) (a b : List (StreamChannel × Bytes))
    → map f (a ++ b) ≡ map f a ++ map f b
map_append f [] b = refl
map_append f (x ∷ a) b = ap (λ y. f x ∷ y) (map_append f a b)

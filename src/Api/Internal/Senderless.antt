-- ===== src/Api/Internal/Senderless.antt =====
-- api/internal.py over the extraction of the repository: a delivery whose sender cannot be resolved.
use email_budget_api.Common.{◌≡◌, refl, ◌∙◌, false, none, some, first}
use email_budget_api.Common.Text.{Text, lower}
use email_budget_api.Extraction.Models.{ParsedEmail}
use email_budget_api.Extraction.Mime.{parse}
use email_budget_api.Extraction.Resolver.{
  dkim_domain, from_domain, outer_sender, is_consumer, resolve,
}
use email_budget_api.Extraction.Pipeline.{run}
use email_budget_api.Extraction.Program.{Outside, program, run_program}
use email_budget_api.Strings.{or_else}
use email_budget_api.Models.Ops.{Alias}
use email_budget_api.Api.Internal.Defs.{
  Env, World, EmailReceivedPayload, raised, found, clamped_key, clamped_message_id, has_key,
  find_message, over_limit, fetched, ingest, admit, active_alias, email_received,
}

resolve_senderless :
    (parseaddr html_to_text : Text → Text) (parsed : ParsedEmail)
    → dkim_domain parsed.dkim_signatures ≡ none
    → from_domain parseaddr parsed ≡ none
    → resolve parseaddr html_to_text parsed ≡ none
unfolding resolve or_else is_consumer outer_sender
resolve_senderless parseaddr html_to_text parsed d f = rw (d, f, resolve) refl

-- The email as its parts, for the outside's message.
abbrev pub parsed_of : Outside → Text → ParsedEmail
parsed_of outside raw = parse outside.decode_header (outside.message_from_bytes raw)

run_senderless :
    (outside : Outside) (raw : Text)
    → dkim_domain (parsed_of outside raw).dkim_signatures ≡ none
    → from_domain outside.parseaddr (parsed_of outside raw) ≡ none
    → run_program outside raw ≡ none
unfolding run_program run program
run_senderless outside raw d f =
    rw (resolve_senderless outside.parseaddr outside.html_to_text (parsed_of outside raw) d f, run)
      refl

-- A new email for an active alias within its limit, whose headers name no sender's domain, in no
-- DKIM signature and not in From, is not acknowledged: the request raises and leaves the database
-- and the stored objects as they were.
pub senderless_email_raises :
    (env : Env) (outside : Outside) (payload : EmailReceivedPayload) (w : World) (alias : Alias)
    (raw : Text)
    → first (has_key (clamped_key payload)) w.emails ≡ none
    → active_alias (lower payload.alias_hash) w.aliases ≡ some alias
    → find_message (lower payload.alias_hash) (clamped_message_id payload) w.emails ≡ none
    → over_limit env (lower payload.alias_hash) w.emails ≡ false
    → env.get_object (clamped_key payload) ≡ found raw
    → env.run_pipeline raw ≡ run_program outside raw
    → dkim_domain (parsed_of outside raw).dkim_signatures ≡ none
    → from_domain outside.parseaddr (parsed_of outside raw) ≡ none
    → email_received env payload w ≡ (raised, w)
unfolding email_received admit ingest fetched
senderless_email_raises env outside payload w alias raw new active message room there pipeline d f =
    let failed = pipeline ∙ run_senderless outside raw d f in
    rw (new, active, message, room, there, failed, email_received, admit, ingest, fetched) refl

-- ===== src/Lib.antt =====
-- A verification library for the Python scripts of ansible-platform.
--
-- The scripts stand between the catalog, which is the inventory in YAML, and the firewall, an OPNsense
-- device behind an HTTP API; others guard the repository itself before a commit. Each script is
-- modelled from its source, and what it takes from outside (the managers and the client of
-- lib-opnsense, curl, git, the YAML reader, the guest agent) is a parameter of its model.
--
-- Parts, by the path of the script in the repository:
--
--   scripts/fw_apply_direct.py               Apply: the catalog is applied section by section.
--     Normalize: strip_ref, normalize_alias, normalize_rule, normalize_snat, normalize_kea_subnet and
--     normalize_radvd, by their names. Api: the calls of the device. Section: apply_section, a row of
--     the report per entry. Services: apply_kea_general, reconfigure_unbound, reconfigure_kea and the
--     service calls of main_async. Catalog: the blocks of the YAML file. Run: the blocks of main_async
--     in their order, summarize and the exit status.
--   scripts/fw_prune_audit.py                PruneAudit: rows of the firewall that no catalog declares.
--   scripts/fw_validate.py                   FwValidate: the tables of the firewall against the catalog.
--   scripts/fw_verify_health.py              VerifyHealth: the gate of checks after a seed.
--   scripts/fw_chain_phase1_apply.py         ChainPhase1: the steps of the DNS-chain bridge.
--   scripts/opn_oob_admin.py                 OobAdmin: the break-glass admin and the file of its secrets.
--   scripts/impacted_plays.py                ImpactedPlays: the playbooks that a change reaches.
--   scripts/check_no_embedded_scripts.py     EmbeddedScripts. Patterns: the regular expressions, as
--     functions on texts. Tasks: _tasks and argv_runs_a_program. Scan: scan and main. Ratchet: totals and
--     ratchet, over the counts per file.
--   scripts/check_image_pins.py              ImagePins: the walk over the files, their lines, and the two
--     searches with their regular expressions.
--   scripts/check_loop_on_skipped_register.py  LoopRegisters: scan, with its regular expressions, and main.
--   scripts/check_service_contract.py        ServiceContract: what counts as data in a play, the roles of
--     a play, and the verdict. Facts: needs_facts with the cache that its calls share. Role:
--     strip_comments, count_container_definitions and runs_in_containers. Check: the patterns of CHECKS
--     and check.
--   load_credentials, load_creds             Credentials: the files of credentials, of three scripts.
--   roles/opnsense/_archive/catalog_lint.py  CatalogLint: pairs of aliases, fields of rules, twins.
--   scripts/check_inventory_removed_vars.py  RemovedVars: variables removed while they are still read.
--   roles/discord_guild/_archive/discord_reconcile.py  Discord: the API, api with its attempts, and the
--     permission overwrites. Reconcile: a function per pass, ensure_role, ensure_category,
--     ensure_channel and ensure_webhook, and the script.
--   roles/jumpserver/_archive/reconcile.py   JumpServer: the calls of its models. Assets: the loop over
--     the assets, split as its comments split it. Steps: the other steps by their numbers, and _changed.
--
-- How they interact: the scripts share no state but the device. The audit, the validation and the gate
-- read what the apply wrote, and each has its own record for the answers that it reads. The guards of
-- the repository read files only, and the scripts for Discord and JumpServer stand alone.
--
-- State and errors: a script that changes the device is a function of the monad Exec (Prelude.Exec),
-- from a state to a result and the state that is left, so that what was done before an exception stays
-- done. The device is a type of its own that only the parameter's calls change. An exception that
-- leaves a script is an `err`; one that a script catches is a case of its handler.
--
-- Values: a YAML or JSON value is a scalar, a list of scalars or a dict of scalars (Prelude.Value),
-- which is as deep as most scripts look; those that walk through plays have documents of any depth
-- (Prelude.Yaml). Numbers are whole and from 0. Texts are Unicode; lower and
-- upper change ASCII letters only.
--
-- Loops: every loop is structural recursion, but the one of role_closure in impacted_plays, which runs
-- on fuel, one round per role and one more, and the recursion of needs_facts, on fuel, one call deep
-- per role directory and one more. Both bounds are enough, with no condition on the references.
-- The polling of the guest agent has the bound of the source, 15, and api of discord_reconcile its 5.
--
-- Requests: Discord and JumpServer are a type of requests, a type of the reply to each, and a function
-- that sends one and changes a world of its own. To speak of what was asked of them, a theorem wraps
-- that function in one that counts (counting, tallying); the scripts do not see the counter.
--
-- Not modelled: command lines and environment, log lines and durations, git, the regular expressions
-- that find references in YAML files (but those of EmbeddedScripts, ImagePins, LoopRegisters and
-- ServiceContract), the probe at the end of the JumpServer script, and the other archived scripts of
-- the roles. Ansible's own YAML and Jinja are another language.
mod Prelude
pub mod Apply
pub mod PruneAudit
pub mod ImpactedPlays
pub mod EmbeddedScripts
pub mod VerifyHealth
pub mod OobAdmin
pub mod RemovedVars
pub mod FwValidate
pub mod ChainPhase1
pub mod ServiceContract
pub mod CatalogLint
pub mod ImagePins
pub mod Discord
pub mod JumpServer
pub mod LoopRegisters
pub mod Credentials
mod Tests

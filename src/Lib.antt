-- ===== src/Lib.antt =====
-- The IBM SOAR Python client libraries: a model of their core and its proofs.
--
-- The program. `resilient` is the REST client: `co3base.BaseClient` makes requests with retries and
-- opens sessions, `co3.SimpleClient` converts its exceptions and runs the patch loop, and `patch`
-- holds the changes to an object and reads the server's reply to them. `app_config` puts secrets into
-- the items of app.config as they are read. `resilient_lib` is what integrations call: it checks the
-- inputs of a function, reads attachments and closes incidents through a client and a patch, and
-- keeps cases in step with an endpoint that is polled. `resilient_circuits` runs the handlers of
-- actions and functions: its component Actions takes messages from the queues, dispatches each as an
-- event, acknowledges and answers it, and tries again what could not be sent. `rc_cts` answers the
-- server's lookups of threats with what searchers, which handle the event of a lookup, have found.
-- `resilient_sdk` cuts an export of the server down to the objects of a package.
--
-- Files. Value.antt has the Python values that the code passes on untyped, and Outcome.antt the
-- responses and exceptions. Http.antt is what the clients use of the packages requests and retry.
--   PatchStatus.antt           resilient/resilient/patch.py, PatchStatus
--   Patch.antt                 resilient/resilient/patch.py, Change and Patch
--   BaseClient.antt            resilient/resilient/co3base.py: state, headers, one request
--   BaseClient/Requests.antt   get, get_const, get_content, post, put, delete
--   BaseClient/GetPut.antt     _get_put, get_put
--   BaseClient/Login.antt      set_api_key, connect, _connect, _extract_org_id
--   SimpleClient.antt          resilient/resilient/co3.py, SimpleClient's requests
--   SimpleClient/Patching.antt _patch, _handle_patch_response, patch, patch_with_callback
--   AppConfig.antt             resilient/resilient/app_config.py, the secrets in items
--   FunctionInputs.antt        resilient-lib/resilient_lib/components/resilient_common.py,
--                              validate_fields
--   RestClient.antt            what resilient_lib uses of a client, and ids in URIs
--   Attachments.antt           the same file, get_file_attachment, _metadata and _name
--   Incidents.antt             the same file, close_incident
--   Poller.antt                resilient-lib/resilient_lib/components/poller_common.py,
--                              _patch_case, _chk_status, _filter_comments
--   Actions.antt               resilient-circuits/resilient_circuits/actions_component.py, the
--                              state of class Actions and the events it fires
--   Actions/Ids.antt           its dictionaries by message id
--   Actions/Destinations.antt  resilient-circuits/resilient_circuits/helpers.py, get_queue
--   Actions/Messages.antt      on_stomp_message, with action_message.py's constructors
--   Actions/Results.antt       _on_event: from returned values to a result and a text
--   Actions/Completion.antt    _on_event, exception, _status
--   Actions/Retries.antt       _on_ack_failure, _on_ack_success, _on_send_failure,
--                              _on_send_success, _retry_send_failures, on_stomp_connected
--   Actions/Queues.antt        registered, subscribe_to_queues, prepare_unregister, _subscribe,
--                              _unsubscribe, disconnect
--   Actions/Connection.antt    on_heartbeat_timeout, _reconnect, connected_succesfully,
--                              retry_connection
--   Restart.antt               resilient-circuits/resilient_circuits/app_restartable.py, reloading
--   RequestsCommon.antt        resilient-lib/resilient_lib/components/requests_common.py, the
--                              settings of a request, with str_to_bool and is_env_proxies_set
--   RequestsCommon/Execute.antt  the same file, execute
--   Oauth.antt                 resilient-lib/resilient_lib/components/
--                              oauth2_client_credentials_session.py
--   Ui/Elements.antt           resilient-lib/resilient_lib/ui/elements.py and tab.py
--   Ui/Conditions.antt         resilient-lib/resilient_lib/ui/conditions.py, FieldConditions
--   Ui/SelectConditions.antt   the same file, SelectFieldCondition
--   Ui/Layouts.antt            resilient-lib/resilient_lib/ui/common.py, the tabs, and tab.py,
--                              get_missing_conditions
--   Ui/Summary.antt            the same file common.py, the summary of incidents
--   Cts.antt                   rc-cts/rc_cts/components/threat_webservice.py and
--                              lib/threat_models.py: lookups, their cache, authentication
--   Sdk/Scrub.antt             resilient-sdk/resilient_sdk/util/sdk_helpers.py, rm_pii, and
--                              resilient/resilient/helpers.py, remove_tag
--   Sdk/Hierarchy.antt         the same sdk_helpers.py, find_parent_child_types
--   Sdk/Minify.antt            the same file, minify_export, and util/resilient_objects.py
--   Sdk/Objects.antt           the same file, get_obj_from_list and get_res_obj
--   Stomp.antt                 resilient-circuits/resilient_circuits/stomp_component.py, StompClient
-- The modules below these hold the proofs, and Examples the runs at concrete inputs.
--
-- Correspondence. An object is a record, and a method that changes it returns its result with the
-- object as it then is, also where it raises. A Python dict is an association list in insertion
-- order. The server, the cookies and all else that a request may depend on are a world that the
-- session's `send` reads and changes. The loops that may run for ever, `get_put` and
-- `patch_with_callback`, take fuel; the results about them hold for every amount of fuel, or name the
-- rounds that suffice. The loop over the secrets of an item takes the item's length for its fuel, which
-- is enough for every item. The search for the parents of incident types takes fuel, for which one more
-- than the ranks of the types is enough; a request of the OAuth2 session takes the depth to which the
-- requests for tokens may nest, and beyond it is a RecursionError.
--
-- Parameters stand for the packages jwcrypto (decryption), bs4 (text of HTML), cachetools (the cache of
-- the incident's fields) and retry, for the environment and for the PAM plugin; and RestClient is the
-- interface through which resilient_lib uses a client. Of circuits, an event that is fired is an entry
-- of a list, and what other handlers do while one waits is a parameter; the frames are stomp.py's.
-- Parameters of Actions are also the float that is read in a header, the name of an action, and the
-- text of a value that is no text; of Cts, a cache of cachetools, in which an entry may expire as
-- time passes and else stays, the hashes uuid4 and uuid5; of the OAuth2 session, the clock and the session of requests;
-- of Ui, the client of the server and the text of HTML; of RequestsCommon, the number that `int` reads.
-- Times of heartbeats are whole seconds.
--
-- Not modelled: floats and other objects among the values, tuples, Python 2, logging, proxies, certificates
-- and timeouts, which are passed on unread, and the texts that error messages are filled in with. Of the
-- SDK, the generation of code, packages and documents, which is files and templates, and the checks of
-- validate; the templates, decorators and converters of HTML of resilient_lib; the PAM plugins;
-- the command line tools; the classes of hits and the example searcher of rc_cts.
pub mod Sdk
pub mod Oauth
pub mod Cts
pub mod Ui
pub mod Stomp
pub mod Restart
pub mod RequestsCommon
pub mod Actions
pub mod Poller
pub mod Incidents
pub mod RestClient
pub mod Attachments
pub mod AppConfig
pub mod FunctionInputs
pub mod Prelude
pub mod Value
pub mod Outcome
pub mod PatchStatus
pub mod Http
pub mod BaseClient
pub mod SimpleClient
pub mod Examples
pub mod Patch

-- ===== src/Lib.antt =====
-- SecureShare: one-time links to secrets. The server (Go) keeps the encrypted secrets; this
-- development is about the scripts of its pages, which are the JavaScript of the repository.
--
-- * web/static/reveal.js, the page that a recipient opens, is Recipient: `Page` is the script's
--   variables with what it reads and writes of the document. `set_state`, `set_submitting`,
--   `show_unavailable`, `session_lost` and `show_network_error` are its functions of these names;
--   Recipient/Payload is `renderField` and `renderSecret`; Recipient/Flow is `prepare` and `reveal`,
--   each cut where it waits for the server, with the exceptions that its `try` catches as values;
--   Recipient/Events has the listeners as events and a run of them, in which the answers to the
--   requests under way come at any time and in any order. Recipient/Machine is the abstract machine
--   of the page's states, which the runs follow. Recipient/Toggle is `setupSecretToggles`. The
--   panels are those of web/templates/recipient.html, all elements present.
-- * web/static/time.js, the formatter of local times, is Time, and Time/Start its first lines, which
--   apply it once the document has been parsed. The recipient page shows the expiration with it.
-- * web/static/admin.js, the pages of the signed-in user: Composer is the create form,
--   `setupCreateSecret`, with Composer/Label (`labelForField`, with the properties that an object inherits), Composer/Rows (the rows and their
--   buttons), Composer/Payload (`structuredPayload`, `plainPayload`, `validateSize`) and
--   Composer/Page, the whole page: Composer/Page/Result is `fillResult`, Composer/Page/Handlers the
--   listeners, each cut where it waits for the server, and Composer/Page/Events a run of the page,
--   with the dialog that asks before a link is revoked and answers in any order (Composer/Page/Round
--   follows a submit to its panel); Navigation is
--   `setupNavigation`, the drawer of narrow screens and its focus trap; Button is
--   `setButtonLoading`; Protection is `setupPasswordProtection`, the password of a link, with its two
--   handlers cut where they wait for the server, as in Recipient/Flow, under the dialog;
--   Theme is `setupTheme`, cut likewise; SignIn is `setupLogin` with the toggle of its password; Links
--   is `setupRevokeButtons` and Dialog its `confirmAction`: the dialog of the page with the value that
--   the browser keeps in it, or `window.confirm` on pages without one; Users is
--   `setupUserManagement`, whose pages are such; LinkPage is the page of a link, web/templates/secret_detail.html, on which
--   Links and Protection share one dialog: each event is one script's, whose view of the dialog the
--   other one takes over, but the closing is for both; ApiClients is `setupAPIClients`, with the
--   data and the panel of the credentials in the parent and the listeners in ApiClients/Events, over
--   the same Dialog;
--   Account is `setupAccount`; EmailSettings is `setupEmailSettings`, with what is made of the
--   answers in EmailSettings/Answers, the listeners in EmailSettings/Events, and in
--   EmailSettings/Phases the abstract machine that each button follows; PublicExperience is
--   `setupPublicExperienceSettings`.
-- * Fetch is what becomes of a request, in both scripts; Effect is a stretch of a script that may
--   throw on the way; Toast is `toast`, which both have, with its
--   timers, which run out at any time once they are due; Headers is `csrfHeaders`.
-- * Exchange is where the two pages meet: Exchange/Seen follows what the submit listener of the
--   create form sends to what `reveal` shows of it, Exchange/Delivered the whole run of the
--   recipient's page from its opening on, and Exchange/Address follows the address of a link
--   to the tokens that both pages send. Recipient/Tokens/Own is the recipient's half of the latter.
-- * examples/javascript/create-secret.mjs, a client of the server's interface, is ExampleClient,
--   whose process hears the answer or the timer of 15 seconds that aborts the request;
--   web/static/swagger-ui/swagger-init.js, which starts the documentation's bundle, is SwaggerPage.
--
-- Text and Json are what the scripts use of the language: texts are lists of UTF-16 units, Json the
-- values that `JSON.parse` gives, with property access, truthiness, `String` and `JSON.stringify`.
-- A number is held as the text that the language prints for it.
--
-- What comes from the browser is a parameter: `Calendar` (dates and their formats), `Host` (the
-- Unicode tables of `toLowerCase`, `JSON.parse`), `upper` in Theme (`toUpperCase`), and
-- `set_parameter` in PublicExperience (the query of a URL). ExampleClient has `base64` and `decimal`
-- (how Node encodes a text and writes a number). No function needs fuel: all recurse on their data.
-- EmailSettings/Drains counts the answers after which no request waits, by a measure on the requests.
-- The bounds of the create form are the script's: 50 fields, and 32768 bytes of JSON in UTF-8.
--
-- Not modelled: the server, layout and scrolling, failures of the clipboard, the copies of other
-- projects' libraries, and the tests and build scripts but for the two of the drawer and of the times,
-- scripts/navigation-interaction-test.js and scripts/time-formatter-test.js, which Tests repeats.
pub mod Prelude
pub mod Text
pub mod Json
pub mod Time
pub mod Account
pub mod ApiClients
pub mod Button
pub mod Composer
pub mod Dialog
pub mod Effect
pub mod EmailSettings
pub mod ExampleClient
pub mod Exchange
pub mod Fetch
pub mod Headers
pub mod LinkPage
pub mod Links
pub mod Navigation
pub mod Protection
pub mod PublicExperience
pub mod Recipient
pub mod SignIn
pub mod SwaggerPage
pub mod Tests
pub mod Theme
pub mod Toast
pub mod Users

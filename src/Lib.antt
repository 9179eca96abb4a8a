-- ===== src/Lib.antt =====
-- The frontend of the registration system of the Ministry of Education, Youth and Sport
-- (frontend/, TypeScript): its session and permissions, its HTTP client, the open survey, the
-- review queues, the wizards of the registration and the surveys, the events, and the search.
--
-- How the parts interact. A page asks the session provider who is signed in. The provider calls the
-- authenticated HTTP client, which refreshes an access token that is due, retries a request that
-- was answered 401, and tells the provider when the session is over. The modules behind the pages
-- validate what is typed in, build the payloads that the client sends, and group what it receives.
--
-- Base: shared names and lemmas. `Base.Texts` has JavaScript strings as lists of UTF-16 code units,
--   `Base.Assoc` records and maps as association lists, `Base.Sorting` the stable sort of
--   `Array.prototype.sort`, `Base.Splitting` and `Base.Trimming` the string methods of those names,
--   `Base.Decimal` the text of a number; `Base.Slicing` has `slice`, `Base.Options` the steps that may
--   give nothing, `Base.Picking` one of several things that are pending.
-- Auth: frontend/src/core/auth. `Auth.Role` and `Auth.Access` are the roles, the permission maps and
--   the route guards (types/index.ts, usePermissions.ts, hooks); `Auth.Navigation` the menu and the
--   guards of the pages (frontend/src/modules/common, app/(portal)); `Auth.Expiry` is tokenExpiry.ts;
--   `Auth.Mfa` is the login's part of mfa.ts; `Auth.State` is the reducer of context/AuthContext.tsx;
--   `Auth.Flows` has its callbacks `login`, `completeMfa` (`complete_mfa`), `logout` (`sign_out`), `refresh`
--   (`refresh_session`) and the effect that restores the session (`restore`), over services/index.ts.
--   `Auth.Flows.Triples` and `Auth.Flows.Legs` carry the proofs about them, and
--   `Auth.Flows.Histories` runs sequences of them.
-- Api: frontend/src/core/api. `Api.World` is what the code reads and writes; `Api.Client` the request
--   and response interceptors of client.ts; `Api.SharedRefresh` the promise that concurrent requests
--   share in `performRefresh`; `Api.Headers` and `Api.Trace` the headers that every request gets
--   (headers.ts, and frontend/src/core/lib/logger/traceContext.ts).
-- OpenSurvey: frontend/src/modules/opensurvey/schema. `OpenSurvey.Choices` and `OpenSurvey.Options`
--   are the field types, the checkbox encoding and the stored options; `OpenSurvey.Builder` is
--   openSurveyField.schema.ts; `OpenSurvey.Fill` is opensurvey.schema.ts; `OpenSurvey.Reorder` the moving
--   of a field (components/OpenSurveyFieldBuilder.tsx).
-- Review: `Review.Grouping` is the loop that groupParticipationsByOrg, groupSubmissionsByOrg and
--   groupCategorySubmissionsBySport share (frontend/src/modules/participation, sportreview and
--   categoryreview, types/index.ts); `Review.Queues` has the three of them.
-- Registration: frontend/src/modules/registration. `Registration.Form` is the form's schema and the
--   payload (schema/registration.schema.ts, mappers/registration.mapper.ts); `Registration.Errors` is
--   `parseApiError` and what the form shows of a rejection (hooks/useRegisterForm.ts);
--   `Registration.Draft` is the autosaved draft (hooks/useRegistrationDraft.ts);
--   `Registration.Deletion` the deletion with its undoing (hooks/useRegistrations.ts).
-- Auth.LoginForm: the login form over the session (frontend/src/core/auth/hooks/useLogin.ts).
-- Survey: frontend/src/modules/survey and frontend/src/modules/bynumber. `Survey.Schema` has their data
--   and the server's requests; `Survey.Cache` the cached reads, `Survey.Reads` those of the sport
--   survey, `Survey.Submit` the submissions of both (adapters/surveyHttpAdapter.ts and
--   adapters/bynumberHttpAdapter.ts); `Survey.ByNumber` the rows of the survey by number
--   (`fetchOrgEventSports` behind its cache, components/ByNumberSportsTable.tsx).
-- Proxy: the check of the session's cookie ahead of a page (frontend/src/proxy.ts).
-- Masking: the masks of phone numbers, national ids and e-mail addresses (frontend/src/shared/utils).
-- Wizard: the forms of several steps. `Wizard` is the position that they keep alike and the step
--   indicator (frontend/src/shared/ui/StepIndicator.tsx), `Wizard.Moves` its invariant;
--   `Wizard.Survey`, `Wizard.ByNumber` and `Wizard.ByCategory` are SurveyForm.tsx, ByNumberForm.tsx and
--   ByCategoryForm.tsx (frontend/src/modules/survey, bynumber and bycategory, components);
--   `Wizard.Register` is frontend/src/modules/registration/components/RegisterForm.tsx, with its
--   fields' `Choices`, its `Gates` and its `Handlers`; `Wizard.Register.Visit` has the sequences of
--   events that the page allows. A handler runs to its end, also where the code awaits a validation,
--   and what `form.trigger` answers is a parameter.
-- Events: frontend/src/modules/events. `Events` is the event as it is read (schema/events.schema.ts,
--   `mapRawEvent` of adapters/eventsHttpAdapter.ts); `Events.Form` the form (components/EventForm.tsx,
--   components/eventForm.schema.ts) and the requests of an update; `Events.Listing`
--   the list with its filters and pages (components/EventList.tsx); `Events.Participation` the
--   configuration of a sport (components/EventSportConfigDialog.tsx). Numbers are a parameter there.
-- Users: the form of a user (frontend/src/modules/users).
-- Sports: the form of a category of a sport (frontend/src/modules/sports); `Sports.Participants` the
--   participants of a category, with their ages (components/CategoryParticipants.tsx).
-- Organizers: the registration of an organizer (frontend/src/modules/organizers).
-- Import: the import of participants from a file (frontend/src/modules/import).
-- Upload: the control that uploads a photo or a document (frontend/src/shared/ui/file-upload.tsx,
--   frontend/src/core/lib/upload/fileStorage.ts).
-- Trail: the crumbs above a page (frontend/src/shared/layout/TopBar.tsx).
-- Search: the command palette (frontend/src/modules/search).
--
-- How it is modelled. The server and the network are a parameter, the record `Backend`: an unknown
-- state, a clock, and an answer to each request that may be any result or failure. A callback is a
-- function from a world to a result and a world; `try` is a promise with both continuations. The
-- provider's callbacks run one after the other, each to its end. Interleavings are modelled
-- in three places: `Api.SharedRefresh` has schedules of calls and answers, `Survey.ByNumber` the order in
-- which lookups end, and `Upload` uploads that overlap. `sent` in a world is a
-- log of the requests, which the code does not have. Axios hands the configuration of a request on to
-- its retry, the `_retry` mark included.
-- Numbers are natural numbers. Times are counted in thousandths, so that a fraction of a second is
-- exact; ids and positions are those of the database. Case mapping is that of the ASCII letters; the
-- order of strings is that of their code units. The fields of a JSON object stand in the order of
-- `Object.entries`. No function needs fuel but `Base.Decimal.show`, which is given one round more
-- than the number: enough, since each round divides it by ten.
--
-- Not modelled: the markup of the React components, the translations and the styles, which render
-- what the functions compute; the backend (backend/), which is behind the parameter; the
-- query client's toasts; the settings of the second factor; the loading of the categories
-- that RegisterForm.tsx asks for (they stand there from the start); the other cached
-- reads of the by-number survey, and those of the by-category one; and the
-- modules for organizations, notifications, reports, cards and the dashboard, and the lists of sports.
pub mod Base
pub mod Auth
pub mod Api
pub mod OpenSurvey
pub mod Review
pub mod Registration
pub mod Survey
pub mod Masking
pub mod Proxy
pub mod Wizard
pub mod Events
pub mod Search
pub mod Users
pub mod Sports
pub mod Organizers
pub mod Import
pub mod Upload
pub mod Trail

-- ===== src/Lib.antt =====
-- Verification of xenon-ext, extensions of the Xenon framework: a finite state machine as a
-- service (xenon-fsm), and JAX-RS annotations for its services and clients (jaxrs-support).
--
-- In xenon-fsm a subclass of FSMService describes its machine by a program of calls on
-- StateMachineConfig.Builder and StateConfiguration. StateMachine fires triggers on the
-- configuration, FSMService turns the start and the patches of a document into firings, and
-- ExpiryScheduler sends patches when a state has lasted too long.
--
-- The world that a method changes is a type of its own, and a method is a function from a world to
-- what it returns or throws and the world after it (Effect). What a method has done before it
-- throws stays done. Maps are association lists whose order stands for the unspecified iteration
-- order of java.util.HashMap (HashMap).
--
-- - Fsm/Behaviour: core/Transition.java and core/TriggerBehaviour.java. A guard is a function of
--   the trigger that neither throws nor changes the world. An operation is a reference.
-- - Fsm/Representation: core/StateRepresentation.java, with Handlers on tryFindHandler.
-- - Fsm/Config: core/StateMachineConfig.java and core/StateConfiguration.java. The representation
--   that a StateConfiguration shares with the map is reached through its state. A `Call` is one
--   call of a builder program, and `build` runs a program up to the first call that throws.
--   Edits and Configured say what one call does, Declared what a program declares, Closed which
--   programs configure all their destinations, Actions what holds of all their actions. The
--   assert of onExpiry runs if the first argument of `invoke` is true; the other asserts of
--   the code test references for null and cannot fail here. Delays are not negative.
-- - Fsm/Machine: core/StateMachine.java. Firing has the cases of fireTrigger by the
--   representations, Programs by the program, Runs sequences of firings.
-- - Fsm/Dot: the two generateDotFile methods. Arrays.sort is a stable insertion sort.
-- - Fsm/Xenon: what the service uses of the framework, as a record of operations, with the laws
--   that their documentation promises as another. Fsm/ServiceTests has a world in which they hold.
-- - Fsm/Document, Fsm/Expiry, Fsm/Service: FSMServiceDoc.java, ExpiryScheduler.java and
--   FSMService.java. getBody returns the body of the operation, so that handleStart, which writes
--   to it, sets it.
-- - Fsm/Stats: stats/FSMStatsServiceImpl.java, by what the loading of a class and the query for the
--   versions of a document come to. Served is on the diagrams that it serves, and Monitored goes
--   on to what the page shows of them.
-- - Fsm/Create: handleCreate of FSMService.java, with its registration at the statistics service.
--   An id whose characters stand for more than themselves in a regular expression is left to an
--   argument.
-- - Link: the id and the service of a link, by client/ServiceClientUtil.java and by docGraphson;
--   Removing is on the removal of the id.
-- - Fsm/Tests and Fsm/ServiceTests: a telephone, and the theorems at it.
-- - Viewer: resources/ui/com/tteky/xenonext/fsm/stats/FSMUIService/js/app.js of xenon-fsm, the page
--   that shows the diagrams. A reply is an event, with the text or id that its callback has closed
--   over; an element is what the code reads or writes of it. Shown is on what the page shows,
--   Requests on its clicks, Justified and Selected on what it asks for. Exchange is the page and a
--   server that answers its requests, as a step relation whose steps are selections, clicks,
--   replies in any order, and failures: Received says what is pending after an event, Answering
--   how the replies end, Delivered what is shown in the end, Reached what the
--   pages show, Bound how many requests are sent. Console output is left out.
-- - Error: util/HttpError.java and util/HttpErrorResponse.java of jaxrs-support. A throwable is its
--   chain of causes, with what the code reads of each.
-- - Feature: util/feature of jaxrs-support. A request is what it is sent with, and a notification
--   the documents of its results. The concurrent map of the cache is a map, since each of its
--   operations is atomic. Cache is on its notifications, Lookups on the lookups between them, and
--   Toggles on the life of a feature.
-- - Jaxrs/Paths: the paths of jaxrs/service/RequestRouterBuilder.java and of parsePathParams. The
--   pieces of `split` are those of String.split, which drops the empty ones at the end.
-- - Jaxrs/Metadata: jaxrs/reflect. A method is what reflection reads of it, a class its name.
--   Parameters is on how the parameters are read, and Methods on which methods are described.
-- - Jaxrs/Routing: jaxrs/service/RoutingOperationHandler.java. What the handler does to an
--   operation is the list of its calls of setBody, complete and fail; a future is as it settles.
--   Arguments is on the path parameters and Completion on how often an operation is completed.
-- - Jaxrs/Registration: parseJaxRsAnnotations and registerRoutes of RequestRouterBuilder.java; the
--   router is the list of what it registers. Jaxrs/Bridge: JaxRsBridgeStatelessService.java, with
--   the chain that it builds at the first request.
-- - Jaxrs/Client: jaxrs/client. Client has buildOperation of ProxyHandler.java, with replaceAll in
--   Replacing; Gathering and Building are on what the service reads of the operation; Sending has
--   InterceptorChain.java and the rest of the handler, and Defaults JaxRsServiceClient.java.
--   Contracts has the with methods of the last, and the clients that client/ServiceClientUtil.java
--   and the bridge build; Invoking is on the description by which a proxy calls a method, where
--   the reflection that invokes a default method is a parameter; Equipped is on what a client
--   sends by, and Returned on the values of its calls; Contracts/ByLink has the default
--   methods of client/StatefulServiceContract.java.
-- - Jaxrs/Template: paths by their words and placeholders. Splitting, Passing, Filling, Built and
--   Placing relate them to the texts that client and service work on, and RoundTrip brings the two
--   together.
--
-- No loop needs fuel: all run over lists or the characters of a text.
--
-- Not modelled: logging, the start of the services and their options, the routing of an operation
-- by the routes (a RequestRouter of the framework), the subscription of the cache of features, and
-- the decoding of the documents of a query. viz.js is another project's library.
pub mod Prelude
pub mod HashMap
pub mod Link
pub mod Effect
pub mod Fsm
pub mod Viewer
pub mod Error
pub mod Feature
pub mod Jaxrs
